-- ===== src/Ledger/Device/Signed.antt =====
-- What a successful answer of the device says.
use avme_wallet.Base.{
  ◌==◌, if◌then◌else◌, bind-eq-some, some_inj, length, Str, codes, ℕ, ◌≡◌, refl, sym, ap, ◌∙◌,
  subst, ◌≢◌, Bool, true, false, not, Option, some, List,
}
use avme_wallet.Utils.Casts.{Casts}
use avme_wallet.Ledger.Messages.{
  encode_bip32_message, decode_bip32_message, encode_sign_eth_message, SignatureStruct,
  decode_sign_eth_message,
}
use avme_wallet.Ledger.Device.{
  Communication, Ethereum, check_for_device, ask_address, ask_signature, finish_transaction,
  sign_at, sign_transaction,
}

-- What a guard's other branch gave was reached.
guard_passed :
    {A : Type 0} (b : Bool) (x : A) (m : Option A) (r : A)
    → x ≢ r
    → (if b then some x else m) ≡ some r
    → (b ≡ false) × (m ≡ some r)
guard_passed true x m r ne eq = absurd (ne (some_inj eq))
guard_passed false x m r ne eq = (refl, eq)

if_some :
    {A : Type 0} (b : Bool) (x y r : A)
    → (if b then x else y) ≡ r
    → (if b then some x else some y) ≡ some r
if_some true x y r eq = ap some eq
if_some false x y r eq = ap some eq

not-false : (b : Bool) → not b ≡ false → b ≡ true
not-false true eq = refl
not-false false eq = cc

module _ (h : Communication) (e : Ethereum) (c : Casts) (garbage : Bool) (stray : ℕ) where
  address_asked :
      (path address : Str) (w w' : h.World)
      → ask_address h e c garbage stray path w ≡ some (address, w')
      → (request : List Str) × (encode_bip32_message c garbage stray path ≡ some request)
        × (address ≡ decode_bip32_message ((h.exchange_message w request).0))
        × (w' ≡ (h.exchange_message w request).1)
  unfolding ask_address
  address_asked path address w w' eq =
      let (request, sent, eq₁) = bind-eq-some (encode_bip32_message c garbage stray path) _ eq in
      (request, sent, sym (ap (λ r. r.0) (some_inj eq₁)), sym (ap (λ r. r.1) (some_inj eq₁)))

  signature_asked :
      (message : Option (List Str)) (w : h.World) (r : SignatureStruct × h.World)
      → ask_signature h e c garbage stray message w ≡ some r
      → (frames : List Str) × (message ≡ some frames)
        × (decode_sign_eth_message ((h.exchange_message w frames).0) ≡ some r.0)
  unfolding ask_signature
  signature_asked message w r eq =
      let (frames, sent, eq₁) = bind-eq-some message _ eq in
      let (signature, read, eq₂) =
        bind-eq-some (decode_sign_eth_message ((h.exchange_message w frames).0)) _ eq₁ in
      (frames, sent, read ∙ ap (λ x. some (x.0)) (some_inj eq₂))

  finished :
      (skl : e.Skeleton) (r : SignatureStruct × h.World) (result : Str) (w' : h.World)
      → finish_transaction h e c garbage stray skl r ≡ ((true, result), w')
      → (e.is_valid r.0 ≡ true) × (result ≡ e.signed_rlp skl r.0)
  unfolding finish_transaction
  finished skl (signature, w) result w' eq =
      let (passed, same_reply) =
        guard_passed (not (e.is_valid signature)) ((false, codes "Invalid signature"), w)
          (some ((true, e.signed_rlp skl signature), w)) ((true, result), w') (λ x. cc)
          (if_some (not (e.is_valid signature)) _ _ _ eq) in
      (not-false _ passed, sym (ap (λ x. x.0.1) (some_inj same_reply)))

  signed_at :
      (skl : e.Skeleton) (path address result : Str) (w w' : h.World)
      → sign_at h e c garbage stray skl path (address, w) ≡ some ((true, result), w')
      → (a : e.Address) × (e.to_address address ≡ some a)
        × (e.same_address a (e.from skl) ≡ true)
        × (frames : List Str) × (signature : SignatureStruct) × (encode_sign_eth_message c garbage
              (e.rlp skl)
              path
            ≡ some frames)
        × (decode_sign_eth_message ((h.exchange_message w frames).0) ≡ some signature)
        × (e.is_valid signature ≡ true)
        × (result ≡ e.signed_rlp skl signature)
  unfolding sign_at
  signed_at skl path address result w w' eq =
      let (_, eq₁) =
        guard_passed (not (length address == 42)) _ _ ((true, result), w') (λ x. cc) eq in
      let (a, to, eq₂) = bind-eq-some (e.to_address address) _ eq₁ in
      let (sender, eq₃) =
        guard_passed (not (e.same_address a (e.from skl))) _ _ ((true, result), w') (λ x. cc) eq₂ in
      let (r, asked, eq₄) =
        bind-eq-some
          (ask_signature h e c garbage stray (encode_sign_eth_message c garbage (e.rlp skl) path) w)
          _ eq₃ in
      let (frames, sent, read) = signature_asked _ w r asked in
      let (valid, text) = finished skl r result w' (some_inj eq₄) in
      (a, to, not-false _ sender, frames, r.0, sent, read, valid, text)

  -- The state behind the test for the device.
  abbrev pub checked : h.World → h.World
  checked w = (check_for_device h e c garbage stray w).1

  -- A transaction that is reported as signed was signed: the device was sent the address request of the
  -- path and then the frames of the transaction; what it answered to the first is the transaction's
  -- sender, and the text is the transaction with the valid signature that was read from what it
  -- answered to the second.
  pub sign_transaction_sound :
      (skl : e.Skeleton) (path result : Str) (w w' : h.World)
      → sign_transaction h e c garbage stray skl path w ≡ some ((true, result), w')
      → (request frames : List Str) × (a : e.Address) × (signature : SignatureStruct)
        × (encode_bip32_message c garbage stray path ≡ some request)
        × (e.to_address (decode_bip32_message ((h.exchange_message (checked w) request).0))
            ≡ some a)
        × (e.same_address a (e.from skl) ≡ true)
        × (encode_sign_eth_message c garbage (e.rlp skl) path ≡ some frames)
        × (decode_sign_eth_message
              ((h.exchange_message ((h.exchange_message (checked w) request).1) frames).0)
            ≡ some signature)
        × (e.is_valid signature ≡ true)
        × (result ≡ e.signed_rlp skl signature)
  unfolding sign_transaction
  sign_transaction_sound skl path result w w' eq =
      let status = check_for_device h e c garbage stray w in
      let (_, asked) =
        guard_passed (not (status.0.0)) ((false, status.0.1), status.1) _ ((true, result), w')
          (λ x. cc) eq in
      let ((address, w₂), ask, sign) =
        bind-eq-some (ask_address h e c garbage stray path status.1) _ asked in
      let (request, requested, address_read, next) = address_asked path address status.1 w₂ ask in
      let (a, to, same_sender, frames, signature, sent, read, valid, text) =
        signed_at skl path address result w₂ w' sign in
      (
        request,
        frames,
        a,
        signature,
        requested,
        ap e.to_address (sym address_read) ∙ to,
        same_sender,
        sent,
        subst (λ x. decode_sign_eth_message ((h.exchange_message x frames).0) ≡ some signature) next
            read,
        valid,
        text,
      )
