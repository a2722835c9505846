-- ===== src/Ledger/Messages.antt =====
-- lib/ledger/encoding.cpp: what is sent for an address and for a signature, and what is read back.
pub mod Signing
pub mod Answers
use avme_wallet.Base.{
  ltb, ◌==◌, if◌then◌else◌, ◌>>=◌, length, take, drop, Str, codes, ℕ, ◌%◌, Bool, Option, none, some,
  List, [], ◌∷◌, ◌++◌,
}
use avme_wallet.Utils.Casts.{Casts}
use avme_wallet.Ledger.Path.{parse_path}
use avme_wallet.Ledger.Chunks.{cut_transaction, cut_personal_message}
use avme_wallet.Ledger.Frames.{to_buffer, hid_header, encode_payloads}

-- The copy loop runs to `i <= bufferVector.size()`: it reads one byte behind the vector, `stray`, and
-- writes it behind the message.
pub encode_bip32_message : Casts → Bool → ℕ → Str → Option (List Str)
encode_bip32_message c garbage stray unparsed_path = do
  path ← parse_path c garbage unparsed_path
  let payload = 0xE0 ∷ 0x02 ∷ 0 ∷ 0 ∷ (length path % 256) ∷ path
  let buffer_vector = hid_header 0 ++ (0 ∷ (length payload % 256) ∷ []) ++ payload
  buffer ← to_buffer (buffer_vector ++ stray ∷ [])
  some (buffer ∷ [])

-- The characters 15 to 54 of the second answer.
unfoldable pub decode_bip32_message : List Str → Str
decode_bip32_message [] = []
decode_bip32_message (a ∷ []) = []
decode_bip32_message (a ∷ b ∷ answers) = codes "0x" ++ take 40 (drop 15 b)

unfoldable pub encode_sign_eth_message : Casts → Bool → Str → Str → Option (List Str)
encode_sign_eth_message c garbage rlp address_path = do
  bip32 ← parse_path c garbage address_path
  encode_payloads 0x04 (cut_transaction bip32 rlp)

pub encode_personal_sign_message : Casts → Bool → Str → Str → Option (List Str)
encode_personal_sign_message c garbage message address_path = do
  bip32 ← parse_path c garbage address_path
  encode_payloads 0x08 (cut_personal_message bip32 message)

pub record SignatureStruct : Type 0 where
  pub r : Str
  pub s : Str
  pub v : ℕ

-- The parity byte, 32 bytes and 32 bytes.
unfoldable pub decode_signature : Str → Option SignatureStruct
decode_signature [] = none
decode_signature (parity ∷ numbers) =
    if ltb (length numbers) 64
    then none
    else some (record {
      r = take 32 numbers;
      s = take 32 (drop 32 numbers);
      v = if parity % 2 == 0 then 1 else 0;
    })

-- The signature stands in the last two answers; with fewer the index wraps around and the read is out
-- of bounds, `none`.
unfoldable pub decode_sign_eth_message : List Str → Option SignatureStruct
decode_sign_eth_message [] = none
decode_sign_eth_message (a ∷ []) = none
decode_sign_eth_message (a ∷ b ∷ []) = decode_signature (drop 7 a ++ drop 5 b)
decode_sign_eth_message (a ∷ b ∷ c ∷ answers) = decode_sign_eth_message (b ∷ c ∷ answers)
