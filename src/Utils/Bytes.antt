-- ===== src/Utils/Bytes.antt =====
-- core/Utils.cpp, hexToString, bytesToHex and bytesFromHex. A `char` is signed, as on x86: the bytes
-- from 128 are the negative values.
pub mod HexStrings
pub mod Padding
use avme_wallet.Base.{
  ltb, ◌==◌, if◌then◌else◌, ◌>>=◌, length, get_elem?, take, drop, Str, codes, strip_0x, ℕ, zero,
  suc, ◌+◌, ◌-◌, ◌*◌, ◌/◌, ◌%◌, ◌^◌, Bool, true, false, Option, none, some, [], ◌∷◌, ◌++◌,
}
use avme_wallet.Utils.Casts.{Casts}
use avme_wallet.Utils.Hex.{uint_to_hex}

abbrev pub lut : Str
lut = codes "0123456789abcdef"

-- std::lower_bound over the sorted table: the first place whose character is not below `a`.
pub lower_bound : Str → ℕ → ℕ
lower_bound [] a = 0
lower_bound (c ∷ table) a = if ltb c a then suc (lower_bound table a) else 0

-- The index of a nibble; one past the table stands a NUL. `none` is a `throw;` with no exception to
-- throw again, which ends the program.
pub lookup_nibble : ℕ → Option ℕ
unfolding lower_bound
lookup_nibble a = elim (get_elem? (lut ++ 0 ∷ []) (lower_bound lut a)) [
  | none ↦ none
  | some found ↦ if found == a then some (lower_bound lut a) else none
]

-- A text of odd length ends the program before the first round.
pub decode_pairs : Str → Option Str
decode_pairs [] = some []
decode_pairs (a ∷ []) = none
decode_pairs (a ∷ b ∷ s) = do
  p ← lookup_nibble a
  q ← lookup_nibble b
  rest ← decode_pairs s
  some ((p * 16 + q) ∷ rest)

pub hex_to_string : Str → Option Str
hex_to_string input = if length input % 2 == 0 then decode_pairs input else none

-- The character of a nibble under std::hex.
pub hex_char : ℕ → ℕ
hex_char n = if ltb n 10 then b'0' + n else b'a' + (n - 10)

-- stream << std::hex << int(c): no leading zeros, and a negative value in two's complement.
pub hex_of_char : ℕ → Str
unfolding hex_char
hex_of_char c =
    if ltb c 16
    then hex_char c ∷ []
    else if ltb c 128
    then hex_char (c / 16) ∷ hex_char (c % 16) ∷ []
    else codes "ffffff" ++ hex_char (c / 16) ∷ hex_char (c % 16) ∷ []

pub hex_of_chars : Str → Str
hex_of_chars [] = []
hex_of_chars (c ∷ s) = hex_of_char c ++ hex_of_chars s

-- while ((ret.size() % 64) != 0) ret += "0"; on fuel.
pub pad_to_word : ℕ → Str → Str
pad_to_word zero ret = ret
pad_to_word (suc fuel) ret = elim (length ret % 64 == 0) [
  | true ↦ ret
  | false ↦ pad_to_word fuel (ret ++ b'0' ∷ [])
]

pub bytes_to_hex : Casts → Str → Bool → Option Str
bytes_to_hex c input is_uint = do
  prefix ← if is_uint then some [] else uint_to_hex c (c.text (length input)) true
  some (pad_to_word 64 (prefix ++ hex_of_chars input))

-- hexStr.substr(i, 2) throws behind the end.
pub substr : Str → ℕ → ℕ → Option Str
substr s pos len = if ltb (length s) pos then none else some (take len (drop pos s))

-- One round of the last loop for each byte, from the `i`-th on.
pub read_bytes : Casts → Str → ℕ → ℕ → Option Str
unfolding substr
read_bytes c hex_str i zero = some []
read_bytes c hex_str i (suc rounds) = do
  pair ← substr hex_str i 2
  value ← c.from_hex 32 (codes "0x" ++ pair)
  rest ← read_bytes c hex_str (i + 2) rounds
  some (value % 256 ∷ rest)

-- The first 64 characters are the offset, the next the length, and all behind them the text.
pub bytes_from_hex : Casts → Str → Option Str
unfolding read_bytes
bytes_from_hex c hex = do
  let bare = strip_0x hex
  offset ← c.from_hex 64 (codes "0x" ++ take 64 bare)
  len ← c.from_hex 64 (codes "0x" ++ take 64 (drop 64 bare))
  read_bytes c (drop 128 bare) 0 (len * 2 % 2 ^ 64 / 2)
