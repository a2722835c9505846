-- ===== src/Transfers.antt =====
-- qmlwrap/QmlSend.cpp, makeTransaction: building, signing and sending, with the signals that it emits.
pub mod Outcomes
use avme_wallet.Base.{
  ◌==◌, ◌>>=◌, Str, codes, ◌-◌, ◌^◌, Bool, true, false, not, Option, none, some, List, [], ◌∷◌,
  ◌++◌,
}
use avme_wallet.Utils.Casts.{Casts, u256_mod}
use avme_wallet.Utils.Amounts.{fixed_point_to_wei}
use avme_wallet.Utils.Json.{text, Json}
use avme_wallet.Utils.Json.Tree.{Value, as_string, index, contains_key}
use avme_wallet.Pangolin.{mul_u256}
use avme_wallet.Api.{Node}
use avme_wallet.Database.{Leveldb, Database}
use avme_wallet.Wallet.Accounts.{Keys, State}
use avme_wallet.Wallet.Sending.{
  Skeleton, Ethcore, build_transaction, sign_transaction, send_transaction,
}

pub data Signal : Type 0 where
  tx_built : Bool → Signal
  ledger_required : Signal
  ledger_done : Signal
  tx_signed : Bool → Str → Signal
  -- success, link, identifier and message
  tx_sent : Bool → Str → Str → Str → Signal

abbrev pub signing_error : Str
signing_error = codes "Error on signing transaction."

abbrev pub signed_message : Str
signed_message = codes "Transaction signed!"

-- The texts that the screens give.
pub record Form : Type 0 where
  pub operation : Str
  pub from : Str
  pub to : Str
  pub value : Str
  pub tx_data : Str
  pub gas : Str
  pub gas_price : Str
  pub pass : Str
  pub tx_nonce : Str

-- The gas price in gwei, multiplied by 10^9 in a u256.
unfoldable pub gas_price_wei : Casts → Str → Option Str
gas_price_wei c gas_price = do
  price ← c.cast_u256 gas_price
  some (c.text (mul_u256 price (10 ^ 9)))

-- What the device's signTransaction answers: the signed text, or a message behind a failure.
unfoldable pub sign_with_ledger : Bool × Str → List Signal × Str
sign_with_ledger (true, signed) =
    (ledger_required ∷ ledger_done ∷ tx_signed true signed_message ∷ [], signed)
sign_with_ledger (false, message) =
    (ledger_required ∷ ledger_done ∷ tx_signed false message ∷ [], [])

unfoldable pub signal_of : Str → List Signal × Str
signal_of [] = (tx_signed false signing_error ∷ [], [])
signal_of (c ∷ signed) = (tx_signed true signed_message ∷ [], c ∷ signed)

-- The last signal; `none` is a value that is no text.
unfoldable pub sent_signal : Value → Option Signal
sent_signal result = elim (contains_key (codes "result") result) [
  | false ↦ do
    error_json ← index (codes "error") result
    message_json ← index (codes "message") error_json
    message ← as_string message_json
    some (tx_sent false [] [] message)
  | true ↦ do
    txid_json ← index (codes "result") result
    txid ← as_string txid_json
    some (tx_sent true (codes "https://snowtrace.io/tx/" ++ txid) txid [])
]

module _ (K : Keys) (e : Ethcore K) (L : Leveldb) where
  -- `hardware` is the device's answer to the skeleton, if a device is used.
  unfoldable pub sign_skeleton :
      Option (Skeleton K → Bool × Str) → Str → Skeleton K → State K → Option (List Signal × Str)
  sign_skeleton none pass skeleton s = do
    signed ← sign_transaction K e skeleton pass s
    some (signal_of signed)
  sign_skeleton (some hardware) pass skeleton s = some (sign_with_ledger (hardware skeleton))

  -- A transaction whose signing failed is sent as the empty text.
  unfoldable pub make_transaction :
      Casts
      → Json
      → Node
      → Option (Skeleton K → Bool × Str)
      → Form
      → State K
      → Database L
      → Option (List Signal × Database L)
  make_transaction c j node hardware form s d = do
    let value_str = fixed_point_to_wei form.value 18
    gas_price_str ← gas_price_wei c form.gas_price
    skeleton ←
        build_transaction K e form.from form.to value_str form.gas gas_price_str form.tx_data
          form.tx_nonce
    (signals, signed_tx) ← sign_skeleton hardware form.pass skeleton s
    (transaction_result, d') ← send_transaction K e L j node signed_tx form.operation d
    sent ← sent_signal transaction_result
    some (tx_built (not (skeleton.tx_nonce == u256_mod - 1)) ∷ signals ++ sent ∷ [], d')
