-- ===== src/Ledger/Chunks.antt =====
-- lib/ledger/encoding.cpp, the loops of encodeSignEthMessage and encodePersonalSignMessage that cut
-- what is to be signed into payloads of at most 150 bytes.
pub mod Cut
pub mod Whole
pub mod Personal
use avme_wallet.Base.{
  leb, if◌then◌else◌, length, Str, ℕ, zero, suc, ◌+◌, ◌-◌, ◌/◌, ◌%◌, ◌^◌, Bool, not, List, [], ◌∷◌,
  ◌++◌,
}

-- struct transactionPayload. Of each array the bytes written are kept; the rest of it are zeros. An
-- `is…Empty` flag is set exactly while nothing is written.
pub record Payload : Type 0 where
  pub payload_size : ℕ
  pub is_hid_first_message : Bool
  pub first_message : Str
  pub second_message : Str
  pub third_message : Str

-- One filling loop over the slots of an array: the header's bytes first, then those that are left. It
-- ends with the slots or with the bytes, whichever comes first.
unfoldable pub fill : ℕ → Str → Str → Str × Str
fill zero header rest = ([], rest)
fill (suc slots) header [] = ([], [])
fill (suc slots) (b ∷ header) (c ∷ rest) =
    let (written, left) = fill slots header (c ∷ rest) in (b ∷ written, left)
fill (suc slots) [] (c ∷ rest) = let (written, left) = fill slots [] rest in (c ∷ written, left)

-- One round of the outer loop: the payload and the bytes left.
unfoldable pub cut_payload : Bool → Str → Str → Payload × Str
cut_payload is_first header rest =
    let (first, rest₁) = fill 52 (if is_first then header else []) rest in
    let (second, rest₂) = fill 59 [] rest₁ in
    let (third, rest₃) = fill 39 [] rest₂ in
    (
      record {
        payload_size = length first + length second + length third;
        is_hid_first_message = is_first;
        first_message = first;
        second_message = second;
        third_message = third;
      },
      rest₃,
    )

-- while (index < size) …, on fuel: a payload is the first one while `index + bip32.size() < 150`.
unfoldable pub cut_rounds : ℕ → Str → ℕ → ℕ → Str → List Payload
cut_rounds fuel header path_size index [] = []
cut_rounds zero header path_size index (c ∷ rest) = []
cut_rounds (suc fuel) header path_size index (c ∷ rest) =
    let is_first = not (leb 150 (index + path_size)) in
    let (payload, left) = cut_payload is_first header (c ∷ rest) in
    payload ∷ cut_rounds fuel header path_size (index + (length (c ∷ rest) - length left)) left

-- encodeSignEthMessage: the header is the path alone.
unfoldable pub cut_transaction : Str → Str → List Payload
unfolding cut_rounds cut_payload fill
cut_transaction bip32 rlp = cut_rounds (length rlp) bip32 (length bip32) 0 rlp

-- The message size as a uint32_t, highest byte first.
pub size_bytes : ℕ → Str
size_bytes n = (n / 2 ^ 24 % 256) ∷ (n / 2 ^ 16 % 256) ∷ (n / 2 ^ 8 % 256) ∷ (n % 256) ∷ []

-- encodePersonalSignMessage: behind the path stands the size, which the test for the first payload
-- leaves out.
pub cut_personal_message : Str → Str → List Payload
unfolding cut_rounds cut_payload fill size_bytes
cut_personal_message bip32 message =
    cut_rounds (length message) (bip32 ++ size_bytes (length message)) (length bip32) 0 message
