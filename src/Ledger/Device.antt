-- ===== src/Ledger/Device.antt =====
-- lib/ledger/ledger.cpp: the device, over the communication of comms.cpp and the transactions and
-- signatures of ethcore, which are parameters. `none` is undefined behaviour or an exception.
pub mod Signed
use avme_wallet.Base.{
  ◌==◌, if◌then◌else◌, ◌>>=◌, length, Str, codes, ℕ, Bool, true, false, not, Option, some, List, [],
  ◌∷◌, ◌++◌,
}
use avme_wallet.Utils.Casts.{Casts}
use avme_wallet.Ledger.Messages.{
  encode_bip32_message, decode_bip32_message, encode_sign_eth_message, encode_personal_sign_message,
  SignatureStruct, decode_sign_eth_message,
}

pub record Communication : Type 1 where
  pub World : Type 0
  pub is_ledger_connected : World → Bool × World
  pub is_app_open : World → Bool × World
  pub is_avax_open : World → Bool × World
  pub exchange_message : World → List Str → List Str × World

pub record Ethereum : Type 1 where
  pub Skeleton : Type 0
  pub Address : Type 0
  pub from : Skeleton → Address
  pub same_address : Address → Address → Bool
  pub to_address : Str → Option Address
  -- the RLP text that is signed, and the one with a signature, in hexadecimal
  pub rlp : Skeleton → Str
  pub signed_rlp : Skeleton → SignatureStruct → Str
  pub is_valid : SignatureStruct → Bool
  pub signature_text : SignatureStruct → Str

pub record Account : Type 0 where
  pub address : Str
  pub index : Str

module _ (h : Communication) (e : Ethereum) (c : Casts) (garbage : Bool) (stray : ℕ) where
  abbrev pub Reply : Type 0
  Reply = (Bool × Str) × h.World

  unfoldable pub check_for_device : h.World → Reply
  check_for_device w =
      let (connected, w₁) = h.is_ledger_connected w in
      let (app, w₂) = h.is_app_open w₁ in
      let (avax, w₃) = h.is_avax_open w₂ in
      if not connected
      then ((false, codes "Ledger not Connected"), w₁)
      else if not app
      then ((false, codes "App not open"), w₂)
      else if not avax
      then ((false, codes "Wrong app open"), w₃)
      else ((true, codes "Connected"), w₃)

  -- The address that the device has at a path.
  unfoldable pub ask_address : Str → h.World → Option (Str × h.World)
  ask_address path w = do
    request ← encode_bip32_message c garbage stray path
    let (answers, w') = h.exchange_message w request
    some (decode_bip32_message answers, w')

  unfoldable pub generate_bip32_account :
      Str → List Account → h.World → Option (Reply × List Account)
  generate_bip32_account path accounts w =
      let (status, w₁) = check_for_device w in
      if not (status.0) then some (((false, status.1), w₁), accounts) else do
        r ← ask_address path w₁
        some (
            if not (length (r.0) == 42)
            then (((false, codes "Error when getting address"), r.1), accounts)
            else (((true, []), r.1), accounts ++ record { address = r.0; index = path } ∷ []))

  -- What is sent and read back for a signature.
  unfoldable pub ask_signature : Option (List Str) → h.World → Option (SignatureStruct × h.World)
  ask_signature message w = do
    request ← message
    let (answers, w') = h.exchange_message w request
    signature ← decode_sign_eth_message answers
    some (signature, w')

  unfoldable pub finish_transaction : e.Skeleton → SignatureStruct × h.World → Reply
  finish_transaction skl (signature, w) =
      if not (e.is_valid signature)
      then ((false, codes "Invalid signature"), w)
      else ((true, e.signed_rlp skl signature), w)

  unfoldable pub sign_at : e.Skeleton → Str → Str × h.World → Option Reply
  sign_at skl path (address, w) =
      if not (length address == 42)
      then some ((false, codes "Error when getting address"), w)
      else do
        a ← e.to_address address
        if not (e.same_address a (e.from skl))
            then some ((false, codes "Address doesn't exist in the desired path"), w)
            else do
              r ← ask_signature (encode_sign_eth_message c garbage (e.rlp skl) path) w
              some (finish_transaction skl r)

  unfoldable pub sign_transaction : e.Skeleton → Str → h.World → Option Reply
  sign_transaction skl path w =
      let (status, w₁) = check_for_device w in
      if not (status.0)
      then some ((false, status.1), w₁)
      else do r ← ask_address path w₁; sign_at skl path r

  unfoldable pub finish_personal : SignatureStruct × h.World → Reply
  finish_personal (signature, w) =
      if not (e.is_valid signature)
      then ((false, codes "Invalid signature"), w)
      else ((true, e.signature_text signature), w)

  -- The address is asked for and compared with nothing.
  unfoldable pub sign_personal_message : Str → Str → h.World → Option Reply
  sign_personal_message message path w =
      let (status, w₁) = check_for_device w in
      if not (status.0) then some ((false, status.1), w₁) else do
        r ← ask_address path w₁
        if not (length (r.0) == 42)
            then some ((false, codes "Error when getting address"), r.1)
            else do
              s ← ask_signature (encode_personal_sign_message c garbage message path) (r.1)
              some (finish_personal s)
