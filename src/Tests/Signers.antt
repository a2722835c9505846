-- ===== src/Tests/Signers.antt =====
-- lib/ledger/ledger.cpp at a device that answers at once.
use avme_wallet.Base.{
  length, replicate, Str, codes, same, ℕ, suc, ◌<◌, ◌≡◌, refl, true, false, some, List, [], ◌∷◌,
  ◌++◌, arith,
}
use avme_wallet.Ledger.Device.{
  Communication, Ethereum, check_for_device, ask_address, ask_signature, finish_transaction,
  sign_at, sign_transaction,
}
use avme_wallet.Tests.Conversions.{conversions}
use avme_wallet.Ledger.Messages.{
  encode_bip32_message, decode_bip32_message, encode_sign_eth_message, SignatureStruct,
  decode_signature, decode_sign_eth_message,
}
use avme_wallet.Ledger.Messages.Signing.{encode_sign_eth_message_read}
use avme_wallet.Tests.Devices.{path, path_bytes, path_parsed, path_bytes-length}
use avme_wallet.Ledger.Device.Signed.{sign_transaction_sound}
use avme_wallet.Ledger.Messages.Answers.{encode_bip32_message_read}

abbrev answering : Communication
answering = record {
  World = ℕ;
  is_ledger_connected = λ w. (true, w);
  is_app_open = λ w. (true, w);
  is_avax_open = λ w. (true, w);
  exchange_message = λ w request. (replicate 64 b'1' ∷ replicate 64 b'2' ∷ [], suc w);
}

abbrev texts : Ethereum
texts = record {
  Skeleton = Str;
  Address = Str;
  from = λ skl. codes "0x" ++ replicate 40 b'2';
  same_address = same;
  to_address = λ s. some s;
  rlp = λ skl. skl;
  signed_rlp = λ skl signature. codes "signed";
  is_valid = λ signature. true;
  signature_text = λ signature. signature.r ++ signature.s;
}

-- A device that answers signs a transaction at the path.
signed_by_device :
    (frame : Str) (frames : List Str)
    → encode_bip32_message conversions false 7 path ≡ some (frame ∷ [])
    → encode_sign_eth_message conversions false (codes "rlp") path ≡ some frames
    → sign_transaction answering texts conversions false 7 (codes "rlp") path 0
      ≡ some ((true, codes "signed"), 2)
unfolding sign_transaction check_for_device ask_address sign_at ask_signature finish_transaction
    decode_bip32_message decode_sign_eth_message decode_signature
signed_by_device frame frames asked sent = rw (asked, sent) refl

path_bytes-short : length path_bytes < 52
path_bytes-short = omega (arith, path_bytes-length)

signed :
    sign_transaction answering texts conversions false 7 (codes "rlp") path 0
    ≡ some ((true, codes "signed"), 2)
signed =
    let (frame, asked, _, _) =
      (encode_bip32_message_read conversions false 7 path path_bytes path_parsed).0
        path_bytes-short in
    let (pss, sent, _, _) =
      encode_sign_eth_message_read conversions false (codes "rlp") path path_bytes path_parsed
        (omega (arith, path_bytes-short)) (λ e. cc) in
    signed_by_device frame _ asked sent

abbrev device_answers : List Str
device_answers = replicate 64 b'1' ∷ replicate 64 b'2' ∷ []

sign_transaction_sound_example :
    (request frames : List Str) × (a : Str) × (signature : SignatureStruct) × (encode_bip32_message
        conversions false 7 path
      ≡ some request)
    × (some (decode_bip32_message device_answers) ≡ some a)
    × (same a (codes "0x" ++ replicate 40 b'2') ≡ true)
    × (encode_sign_eth_message conversions false (codes "rlp") path ≡ some frames)
    × (decode_sign_eth_message device_answers ≡ some signature)
    × (true ≡ true)
    × (codes "signed" ≡ codes "signed")
sign_transaction_sound_example =
    sign_transaction_sound answering texts conversions false 7 (codes "rlp") path (codes "signed") 0
      2 signed
