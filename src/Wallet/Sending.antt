-- ===== src/Wallet/Sending.antt =====
-- core/Wallet.cpp: buildTransaction, signTransaction, signMessage and sendTransaction. What they call of
-- ethcore is a parameter; `none` is an exception.
pub mod Recorded
use avme_wallet.Base.{
  if◌then◌else◌, ◌>>=◌, length, Str, codes, is_empty, ℕ, ◌+◌, ◌%◌, ◌^◌, Bool, true, false, Option,
  none, some, [], ◌∷◌, ◌++◌,
}
use avme_wallet.Utils.Casts.{Casts}
use avme_wallet.Utils.Json.{text, Json}
use avme_wallet.Utils.Json.Tree.{Value, contains_key}
use avme_wallet.Api.{Node, broadcast_tx}
use avme_wallet.Database.{Leveldb, Database}
use avme_wallet.Wallet.Accounts.{Keys, State}
use avme_wallet.Wallet.Accounts as Accounts
use avme_wallet.Wallet.History.{TxData, save_tx_to_history}

-- The members of TransactionSkeleton that are set.
pub record Skeleton (K : Keys) : Type 0 where
  pub creation : Bool
  pub sender : K.Address
  pub receiver : K.Address
  pub amount : ℕ
  pub payload : Str
  pub tx_nonce : ℕ
  pub gas_limit : ℕ
  pub gas_price : ℕ
  pub chain_id : ℕ

pub record Signature : Type 0 where
  pub r_bytes : Str
  pub s_bytes : Str
  pub parity : ℕ

pub record Ethcore (K : Keys) : Type 1 where
  pub Hash : Type 0
  pub to_u256 : Str → Option ℕ
  pub from_hex : Str → Option Str
  -- lexical_cast<int>, converted to u256
  pub to_nonce : Str → Option ℕ
  -- the signed RLP text in hexadecimal; its exception is caught
  pub signed_rlp : Skeleton K → K.Secret → Option Str
  -- h256 of the bytes of a hexadecimal text
  pub hash_of_hex : Str → Option Hash
  pub sha3 : Str → Hash
  pub sign : K.Secret → Hash → Signature
  pub signature_hex : Signature → Str
  -- Utils::decodeRawTransaction
  pub decode_raw_transaction : Str → Option TxData

module _ (K : Keys) (e : Ethcore K) where
  unfoldable pub build_transaction : Str → Str → Str → Str → Str → Str → Str → Option (Skeleton K)
  build_transaction from to value gas_limit gas_price data_hex tx_nonce = do
    sender ← K.to_address from
    receiver ← K.to_address to
    amount ← e.to_u256 value
    payload ← if is_empty data_hex then some [] else e.from_hex data_hex
    nonce ← e.to_nonce tx_nonce
    gas ← e.to_u256 gas_limit
    price ← e.to_u256 gas_price
    some (record {
      creation = false;
      sender = sender;
      receiver = receiver;
      amount = amount;
      payload = payload;
      tx_nonce = nonce;
      gas_limit = gas;
      gas_price = price;
      chain_id = 43114;
    })

  -- The empty text is a failure.
  unfoldable pub sign_transaction : Skeleton K → Str → State K → Option Str
  sign_transaction tx_skel pass s = do
    secret ← Accounts.get_secret K (codes "0x" ++ K.address_text tx_skel.sender) pass s
    some (elim (e.signed_rlp tx_skel secret) [ none ↦ [] | some hex ↦ hex ])

  -- eth_sign gives the hash, personal_sign the message; the last number of the signature is a byte.
  unfoldable pub sign_message : Casts → Bool → Str → Str → Str → State K → Option Str
  sign_message c is_personal address message pass s = do
    secret ← Accounts.get_secret K address pass s
    message_hash ←
        if is_personal
        then some (
            e.sha3 (
              0x19 ∷ codes "Ethereum Signed Message:"
              ++ b'\n' ∷ c.text (length message)
              ++ message))
        else e.hash_of_hex message
    let signature = e.sign secret message_hash
    some (
        codes "0x"
        ++ e.signature_hex (record signature { parity = (signature.parity + 27) % 2 ^ 8 }))

  -- The node's answer, and the database; whether the write succeeded is not looked at.
  unfoldable pub record_sent :
      (L : Leveldb) → Json → Str → Str → Bool → Database L → Option (Database L)
  record_sent L j txid_hex operation false d = some d
  record_sent L j txid_hex operation true d = do
    tx ← e.decode_raw_transaction txid_hex
    saved ← save_tx_to_history L j (record tx { operation = operation }) d
    some (saved.1)

  unfoldable pub send_transaction :
      (L : Leveldb) → Json → Node → Str → Str → Database L → Option (Value × Database L)
  send_transaction L j node txid_hex operation d = do
    resp ← broadcast_tx node txid_hex
    transaction_result ← node.parse resp
    d' ← record_sent L j txid_hex operation (contains_key (codes "result") transaction_result) d
    some (transaction_result, d')
