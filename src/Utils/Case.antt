-- ===== src/Utils/Case.antt =====
-- core/Utils.cpp, toLowerCaseAddress, toCamelCaseAddress and isHex; core/Wallet.cpp, isPrivKey.
pub mod Checksum
use avme_wallet.Base.{
  ltb, leb, ◌==◌, if◌then◌else◌, ◌>>=◌, length, Str, codes, strip_0x, ℕ, ◌+◌, ◌-◌, Bool, true, ◌&&◌,
  ◌||◌, Option, none, some, [], ◌∷◌, ◌++◌, map,
}

-- ::tolower and std::toupper in the C locale.
unfoldable pub to_lower : ℕ → ℕ
to_lower c = if leb b'A' c && leb c b'Z' then c + 32 else c

unfoldable pub to_upper : ℕ → ℕ
to_upper c = if leb b'a' c && leb c b'z' then c - 32 else c

unfoldable pub to_lower_case_address : Str → Str
to_lower_case_address address = map to_lower address

-- std::stoi of one character in base 16; `none` is std::invalid_argument.
unfoldable pub nibble : ℕ → Option ℕ
nibble c =
    if leb b'0' c && leb c b'9'
    then some (c - b'0')
    else if leb b'a' c && leb c b'f'
    then some (c - b'a' + 10)
    else if leb b'A' c && leb c b'F'
    then some (c - b'A' + 10)
    else none

-- The loop over the address beside its hash, whose characters run out with an exception.
unfoldable pub checksum : Str → Str → Option Str
checksum [] hash = some []
checksum (c ∷ s) [] = none
checksum (c ∷ s) (h ∷ hash) = do
  digit ← nibble h
  rest ← checksum s hash
  some ((if ltb 7 digit then to_upper c else c) ∷ rest)

-- `keccak_hex` is dev::toHex(dev::sha3(…)).
unfoldable pub to_camel_case_address : (Str → Str) → Str → Option Str
to_camel_case_address keccak_hex address = do
  let bare = strip_0x (to_lower_case_address address)
  rest ← checksum bare (keccak_hex bare)
  some (codes "0x" ++ rest)

unfoldable pub is_hex_digit : ℕ → Bool
is_hex_digit c =
    (leb b'0' c && leb c b'9') || (leb b'a' c && leb c b'f') || (leb b'A' c && leb c b'F')

pub all_hex : Str → Bool
all_hex [] = true
all_hex (c ∷ s) = is_hex_digit c && all_hex s

pub is_hex : Str → Bool
is_hex hex = all_hex (strip_0x hex)

pub is_priv_key : Str → Bool
is_priv_key priv_key =
    let bare = strip_0x (to_lower_case_address priv_key) in is_hex bare && (length bare == 64)
