-- ===== src/Tests/Stores.antt =====
-- core/Database.cpp and core/Wallet.cpp at concrete inputs.
use avme_wallet.Base.{
  if◌then◌else◌, length, Str, codes, same, ◌+◌, ◌<◌, ◌≡◌, refl, ap, false, none, some, List, [],
  ◌∷◌, ◌++◌, arith,
}
use avme_wallet.Database.{ok, token_db, history_db, Handle, Database, same_table, new_database}
use avme_wallet.Database.Storage.{get_history_value_reads_tokens}
use avme_wallet.Database.Operations as Operations
use avme_wallet.Database.Token as Token
use avme_wallet.Database.History as History
use avme_wallet.Wallet.{Arc20Token, Wallet}
use avme_wallet.Wallet.Tokens.{
  token_json, token_of_json, parse_tokens, load_arc20_tokens, load_if, add_arc20_token,
}
use avme_wallet.Wallet.Tokens.Added.{add_arc20_token-loaded}
use avme_wallet.Wallet.Passwords.{initial, start_pass_thread, start, here, next, stored_pass-thread}
use avme_wallet.Wallet.History.{TxData}
use avme_wallet.Tests.Objects.{print_object, read_object, objects, objects-JsonLaws}
use avme_wallet.Tests.Disks.{disks, disks-LeveldbLaws}

abbrev handle_at : Str → Handle
handle_at path = record { db = some path; status = ok; value = [] }

-- Every database is open, the history at "h" and the others at "t"; the token database has one pair.
abbrev opened : Database disks
opened = record {
  disk = λ p. if same p (codes "tok") then (codes "key", codes "old") ∷ [] else [];
  handles = λ t. if same_table t history_db then handle_at (codes "h") else handle_at (codes "tok");
}

abbrev history_written : Database disks
history_written =
    (Operations.written disks history_db
      (disks.put opened.disk (codes "h") (codes "key") (codes "new")) opened).1

get_history_value_reads_tokens_example :
    (s : Str) × (d₁ d₂ d₃ : Database disks) × (History.get_value disks (codes "key") history_written
      ≡ some (s, d₁))
    × (History.get_value disks (codes "key") opened ≡ some (s, d₂))
    × (Token.get_value disks (codes "key") opened ≡ some (s, d₃))
unfolding Operations.put_value History.put_value
get_history_value_reads_tokens_example =
    get_history_value_reads_tokens disks disks-LeveldbLaws (codes "tok") (codes "h") (codes "key")
      (codes "new") opened history_written refl refl
      (λ e. let size : 3 ≡ 1 = ap length e in absurd (omega (arith, size))) refl

abbrev before_opening : Database disks
before_opening = new_database disks (λ p. (codes "key", codes "token") ∷ [])

abbrev opened_tokens : Database disks
opened_tokens =
    (Operations.open_at disks token_db (codes "f" ++ codes "/wallet/c-avax/tokens")
      before_opening).1

abbrev png : Arc20Token
png = record {
  address = codes "0x60";
  symbol = codes "PNG";
  name = codes "Pangolin";
  decimals = 18;
  avax_pair_contract = codes "0xd7";
}

abbrev no_tokens : Wallet disks
no_tokens = record {
  db = record { disk = λ p. []; handles = λ t. handle_at (codes "tok") };
  arc20_tokens = [];
}

abbrev one_token : Wallet disks
one_token = elim (add_arc20_token disks objects png no_tokens) [ none ↦ no_tokens | some r ↦ r.1 ]

add_arc20_token-loaded_example :
    (before after : List Arc20Token) × (one_token.arc20_tokens ≡ before ++ png ∷ after)
unfolding add_arc20_token Token.put_value Operations.put_value load_if load_arc20_tokens
    Token.all_values Operations.all_values parse_tokens token_of_json token_json print_object
    read_object
add_arc20_token-loaded_example =
    add_arc20_token-loaded disks objects disks-LeveldbLaws objects-JsonLaws (codes "tok") png
      no_tokens one_token refl refl

stored_pass-thread_example : 0 < 0 + 0 + (1 + 0)
stored_pass-thread_example =
    stored_pass-thread (start_pass_thread (codes "pw") 7 initial)
      (next here (start initial (codes "pw") 7)) refl (λ e. cc)

abbrev pub sent_tx : TxData
sent_tx = record {
  operation = codes "Send AVAX";
  hex = codes "f8";
  type = [];
  code = [];
  to = codes "0x1";
  from = codes "0x2";
  tx_data = [];
  creates = [];
  value = codes "1";
  nonce = codes "0";
  gas = codes "21000";
  price = codes "225";
  hash = codes "ab";
  v = [];
  r = [];
  s = [];
  human_date = codes "now";
  unix_date = 1000;
  confirmed = false;
  invalid = false;
}
