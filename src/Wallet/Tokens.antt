-- ===== src/Wallet/Tokens.antt =====
-- core/Wallet.cpp, the ARC20 tokens: loadARC20Tokens, addARC20Token, removeARC20Token and
-- ARC20TokenWasAdded.
pub mod Added
use avme_wallet.Base.{◌>>=◌, Str, codes, Bool, true, false, Option, some, List, [], ◌∷◌}
use avme_wallet.Utils.Json.{text, number, JsonObject, text_field, number_field, Json}
use avme_wallet.Database.{Leveldb}
use avme_wallet.Database.Token as Token
use avme_wallet.Wallet.{Arc20Token, Wallet}

unfoldable pub token_json : Arc20Token → JsonObject
token_json t =
    (codes "address", text t.address)
    ∷ (codes "symbol", text t.symbol)
    ∷ (codes "name", text t.name)
    ∷ (codes "decimals", number t.decimals)
    ∷ (codes "avaxPairContract", text t.avax_pair_contract)
    ∷ []

unfoldable pub token_of_json : JsonObject → Option Arc20Token
token_of_json token_data = do
  address ← text_field (codes "address") token_data
  symbol ← text_field (codes "symbol") token_data
  name ← text_field (codes "name") token_data
  decimals ← number_field (codes "decimals") token_data
  avax_pair_contract ← text_field (codes "avaxPairContract") token_data
  some (record {
    address = address;
    symbol = symbol;
    name = name;
    decimals = decimals;
    avax_pair_contract = avax_pair_contract;
  })

module _ (L : Leveldb) (j : Json) where
  unfoldable pub parse_tokens : List Str → Option (List Arc20Token)
  parse_tokens [] = some []
  parse_tokens (token_json ∷ token_json_list) = do
    token_data ← j.parse token_json
    token ← token_of_json token_data
    rest ← parse_tokens token_json_list
    some (token ∷ rest)

  unfoldable pub load_arc20_tokens : Wallet L → Option (Wallet L)
  load_arc20_tokens w = do
    token_json_list ← Token.all_values L w.db
    tokens ← parse_tokens token_json_list
    some (record w { arc20_tokens = tokens })

  -- The list is loaded again after a write that succeeds.
  unfoldable pub load_if : Bool → Wallet L → Option (Wallet L)
  load_if true w = load_arc20_tokens w
  load_if false w = some w

  unfoldable pub add_arc20_token : Arc20Token → Wallet L → Option (Bool × Wallet L)
  add_arc20_token token w = do
    dumped ← j.dump (token_json token)
    r ← Token.put_value L token.address dumped w.db
    loaded ← load_if (r.0) (record w { db = r.1 })
    some (r.0, loaded)

  unfoldable pub remove_arc20_token : Str → Wallet L → Option (Bool × Wallet L)
  remove_arc20_token address w = do
    r ← Token.delete_value L address w.db
    loaded ← load_if (r.0) (record w { db = r.1 })
    some (r.0, loaded)

  pub arc20_token_was_added : Str → Wallet L → Option Bool
  arc20_token_was_added address w = Token.key_exists L address w.db
