-- ===== src/Utils/Hex.antt =====
-- core/Utils.cpp, uintToHex, addressToHex, uintFromHex and addressFromHex: 32-byte words of the ABI
-- as 64 hex characters.
pub mod Words
use avme_wallet.Base.{
  ltb, if◌then◌else◌, ◌>>=◌, length, take, drop, replicate, Str, strip_0x, ℕ, Bool, Option, none,
  some, [], ◌∷◌, ◌++◌, map, reverse,
}
use avme_wallet.Utils.Casts.{Casts}
use avme_wallet.Utils.Case.{to_lower}

abbrev pub word_length : ℕ
word_length = 64

-- Writing `value` over `padding` from the right end: both texts are given reversed. `none` is a write
-- before the first character, which C++ leaves undefined.
unfoldable pub overlay : Str → Str → Option Str
overlay padding [] = some padding
overlay [] (c ∷ value) = none
overlay (p ∷ padding) (c ∷ value) = do rest ← overlay padding value; some (c ∷ rest)

unfoldable pub pad_left : Str → Option Str
unfolding overlay
pad_left value = do
  padded ← overlay (reverse (replicate word_length b'0')) (reverse value)
  some (reverse padded)

pub uint_to_hex : Casts → Str → Bool → Option Str
uint_to_hex c input is_padded = do
  value ← c.cast_u256 input
  let value_hex = map to_lower (c.hex_text value)
  if is_padded then pad_left value_hex else some value_hex

unfoldable pub address_to_hex : Str → Option Str
address_to_hex input = pad_left (map to_lower (strip_0x input))

-- The number is an unsigned int, of 32 bits.
pub uint_from_hex : Casts → Str → Option Str
uint_from_hex c hex = do number ← c.from_hex 32 (strip_0x hex); some (c.text number)

-- ret.erase(2, 24) throws std::out_of_range on a text shorter than two characters.
pub address_from_hex : Str → Option Str
address_from_hex hex = if ltb (length hex) 2 then none else some (take 2 hex ++ drop 26 hex)
