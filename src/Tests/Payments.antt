-- ===== src/Tests/Payments.antt =====
-- qmlwrap/QmlSend.cpp and core/Wallet.cpp: a transfer at concrete inputs.
use avme_wallet.Base.{
  if◌then◌else◌, Str, codes, is_empty, ◌≡◌, refl, ◌⊎◌, Bool, true, false, Option, none, some, List,
  [], ◌∷◌, ◌++◌,
}
use avme_wallet.Utils.Json.Tree.{Value, string, object, done, member, contains_key}
use avme_wallet.Api.{Node, build_request, broadcast_tx}
use avme_wallet.Database.{ok, Database}
use avme_wallet.Database.Operations as Operations
use avme_wallet.Database.History as History
use avme_wallet.Wallet.History.{
  TxData, tx_json, tx_of_json, save_tx_to_history, parse_history, load_tx_history,
}
use avme_wallet.Wallet.Sending.{Skeleton, Ethcore, record_sent, send_transaction}
use avme_wallet.Wallet.Sending.Recorded.{HistoryWritesSucceed, send_transaction-load_tx_history}
use avme_wallet.Transfers.{Signal, Form, make_transaction}
use avme_wallet.Tests.Conversions.{conversions}
use avme_wallet.Tests.Objects.{print_object, read_object, objects, objects-JsonLaws}
use avme_wallet.Tests.Disks.{disks, disks-LeveldbLaws}
use avme_wallet.Tests.Accounts.{two_keys, stored}
use avme_wallet.Tests.Stores.{sent_tx}

abbrev eth : Ethcore two_keys
eth = record {
  Hash = Str;
  to_u256 = λ s. some 1;
  from_hex = λ s. some s;
  to_nonce = λ s. some 0;
  signed_rlp = λ skeleton secret. some (codes "f8");
  hash_of_hex = λ s. some s;
  sha3 = λ s. s;
  sign = λ secret h. record { r_bytes = h; s_bytes = secret; parity = 0 };
  signature_hex = λ s. s.r_bytes;
  decode_raw_transaction = λ s. if is_empty s then none else some sent_tx;
}

-- A node that takes every transaction.
abbrev willing : Node
willing = record {
  dump = λ v. some (codes "{}");
  parse = λ s. some (object (member (codes "result") (string (codes "0xab")) done));
  http = λ s. s;
}

abbrev histories : Database disks
histories = record {
  disk = λ p. [];
  handles = λ t. record { db = some (codes "h"); status = ok; value = [] };
}

writes : HistoryWritesSucceed disks objects (codes "h")
writes disk key value = (_, refl)

abbrev behind {ℓ} : {A : Type ℓ} → Option (A × Database disks) → Database disks
behind none = histories
behind (some r) = r.1

abbrev loaded : Option (List TxData) → List TxData
loaded none = []
loaded (some history) = history

abbrev sent_once : Database disks
sent_once =
    behind
      (send_transaction two_keys eth disks objects willing (codes "f8") (codes "Send") histories)

abbrev taken : Value
taken = object (member (codes "result") (string (codes "0xab")) done)

send_transaction-load_tx_history_example :
    ((contains_key (codes "result") taken ≡ true)
      × (tx : TxData) × (before after : List TxData) × (eth.decode_raw_transaction (codes "f8")
          ≡ some tx)
      × (loaded (load_tx_history disks objects sent_once)
          ≡ before ++ (record tx { operation = codes "Send" }) ∷ after))
    ⊎ ((contains_key (codes "result") taken ≡ false) × (sent_once ≡ histories))
unfolding send_transaction record_sent broadcast_tx build_request save_tx_to_history load_tx_history
    parse_history tx_of_json tx_json print_object read_object History.put_value History.all_values
    Operations.put_value Operations.all_values
send_transaction-load_tx_history_example =
    send_transaction-load_tx_history disks objects two_keys eth disks-LeveldbLaws objects-JsonLaws
      willing (codes "h") (codes "f8") (codes "Send") taken histories sent_once
      (loaded (load_tx_history disks objects sent_once)) refl writes refl refl

abbrev form : Form
form = record {
  operation = codes "Send AVAX";
  from = codes "ab";
  to = codes "cd";
  value = codes "1.5";
  tx_data = [];
  gas = codes "21000";
  gas_price = codes "25";
  pass = codes "pass";
  tx_nonce = codes "0";
}

-- A device that signs everything.
abbrev device : Option (Skeleton two_keys → Bool × Str)
device = some (λ skeleton. (true, codes "f8"))

abbrev made : Option (List Signal × Database disks)
made = make_transaction two_keys eth disks conversions objects willing device form stored histories

abbrev signals_of : Option (List Signal × Database disks) → List Signal
signals_of none = []
signals_of (some r) = r.0
