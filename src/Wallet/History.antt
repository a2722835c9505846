-- ===== src/Wallet/History.antt =====
-- core/Wallet.cpp, the history of transactions: txDataToJSON, loadTxHistory, saveTxToHistory and
-- updateTxStatus, over the struct of core/Utils.h.
pub mod Saved
use avme_wallet.Base.{
  ltb, if◌then◌else◌, ◌>>=◌, Str, codes, same, ℕ, ◌+◌, ◌%◌, ◌^◌, Bool, ◌||◌, Option, none, some,
  List, [], ◌∷◌, map,
}
use avme_wallet.Utils.Casts.{Casts}
use avme_wallet.Utils.Json.{
  text, number, flag, JsonObject, text_field, number_field, flag_field, Json,
}
use avme_wallet.Database.{Leveldb, Database}
use avme_wallet.Database.History as History

pub record TxData : Type 0 where
  pub operation : Str
  pub hex : Str
  pub type : Str
  pub code : Str
  pub to : Str
  pub from : Str
  pub tx_data : Str
  pub creates : Str
  pub value : Str
  pub nonce : Str
  pub gas : Str
  pub price : Str
  pub hash : Str
  pub v : Str
  pub r : Str
  pub s : Str
  pub human_date : Str
  pub unix_date : ℕ
  pub confirmed : Bool
  pub invalid : Bool

unfoldable pub tx_json : TxData → JsonObject
tx_json t =
    (codes "operation", text t.operation)
    ∷ (codes "hex", text t.hex)
    ∷ (codes "type", text t.type)
    ∷ (codes "code", text t.code)
    ∷ (codes "to", text t.to)
    ∷ (codes "from", text t.from)
    ∷ (codes "data", text t.tx_data)
    ∷ (codes "creates", text t.creates)
    ∷ (codes "value", text t.value)
    ∷ (codes "nonce", text t.nonce)
    ∷ (codes "gas", text t.gas)
    ∷ (codes "price", text t.price)
    ∷ (codes "hash", text t.hash)
    ∷ (codes "v", text t.v)
    ∷ (codes "r", text t.r)
    ∷ (codes "s", text t.s)
    ∷ (codes "humanDate", text t.human_date)
    ∷ (codes "unixDate", number t.unix_date)
    ∷ (codes "confirmed", flag t.confirmed)
    ∷ (codes "invalid", flag t.invalid)
    ∷ []

unfoldable pub tx_of_json : JsonObject → Option TxData
tx_of_json tx = do
  operation' ← text_field (codes "operation") tx
  hex' ← text_field (codes "hex") tx
  type' ← text_field (codes "type") tx
  code' ← text_field (codes "code") tx
  to' ← text_field (codes "to") tx
  from' ← text_field (codes "from") tx
  tx_data' ← text_field (codes "data") tx
  creates' ← text_field (codes "creates") tx
  value' ← text_field (codes "value") tx
  nonce' ← text_field (codes "nonce") tx
  gas' ← text_field (codes "gas") tx
  price' ← text_field (codes "price") tx
  hash' ← text_field (codes "hash") tx
  v' ← text_field (codes "v") tx
  r' ← text_field (codes "r") tx
  s' ← text_field (codes "s") tx
  human_date' ← text_field (codes "humanDate") tx
  unix_date' ← number_field (codes "unixDate") tx
  confirmed' ← flag_field (codes "confirmed") tx
  invalid' ← flag_field (codes "invalid") tx
  some (record {
    operation = operation';
    hex = hex';
    type = type';
    code = code';
    to = to';
    from = from';
    tx_data = tx_data';
    creates = creates';
    value = value';
    nonce = nonce';
    gas = gas';
    price = price';
    hash = hash';
    v = v';
    r = r';
    s = s';
    human_date = human_date';
    unix_date = unix_date';
    confirmed = confirmed';
    invalid = invalid';
  })

-- The history as an array; the fields are the stored ones.
unfoldable pub tx_data_to_json : List TxData → List JsonObject
tx_data_to_json history = map tx_json history

unfoldable pub find_tx : Str → TxData → List TxData → TxData
find_tx tx_hash blank [] = blank
find_tx tx_hash blank (tx ∷ history) =
    let rest = find_tx tx_hash blank history in if same tx.hash tx_hash then tx else rest

-- What the node answers: the current block, the status if there is one, and the transaction's block.
pub record Answers : Type 0 where
  pub current_block : Str
  pub status : Option Str
  pub transaction_block : Str

-- The transaction with its flags after an answer; the time is a uint64_t.
unfoldable pub judge : Casts → Answers → ℕ → TxData → Option TxData
judge c answers now tx = do
  current ← c.from_hex 256 answers.current_block
  elim answers.status [
    | none ↦ some (record tx { invalid = ltb tx.unix_date ((now + 300) % 2 ^ 64) })
    | some status ↦ do
      block ←
          if same status (codes "0x0")
          then c.from_hex 256 answers.transaction_block
          else some current
      some (record tx {
        confirmed = same status (codes "0x1") || tx.confirmed;
        invalid = if same status (codes "0x0") then ltb block current else tx.invalid;
      })
  ]

module _ (L : Leveldb) (j : Json) where
  unfoldable pub save_tx_to_history : TxData → Database L → Option (Bool × Database L)
  save_tx_to_history tx d = do dumped ← j.dump (tx_json tx); History.put_value L tx.hash dumped d

  unfoldable pub parse_history : List Str → Option (List TxData)
  parse_history [] = some []
  parse_history (tx_str ∷ tx_data) = do
    object ← j.parse tx_str
    tx ← tx_of_json object
    rest ← parse_history tx_data
    some (tx ∷ rest)

  unfoldable pub load_tx_history : Database L → Option (List TxData)
  load_tx_history d = do tx_data ← History.all_values L d; parse_history tx_data

  -- `blank` is the TxData that is declared; its numbers and flags are uninitialised.
  unfoldable pub update_tx_status :
      Casts → Answers → ℕ → TxData → Str → List TxData → Database L → Option (Bool × Database L)
  update_tx_status c answers now blank tx_hash history d = do
    tx ← judge c answers now (find_tx tx_hash blank history)
    save_tx_to_history tx d
