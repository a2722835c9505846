-- ===== src/Ledger/Path.antt =====
-- lib/ledger/encoding.cpp, parsePath: a BIP 32 path as the bytes that the device reads.
pub mod RoundTrip
use avme_wallet.Base.{
  ◌==◌, if◌then◌else◌, ◌>>=◌, length, take, drop, Str, codes, same, is_empty, ℕ, ◌+◌, ◌/◌, ◌%◌, ◌^◌,
  Bool, true, false, ◌||◌, Option, some, List, [], ◌∷◌, ◌++◌,
}
use avme_wallet.Utils.Casts.{Casts}
use avme_wallet.Utils.Amounts.{is_digit_byte}

abbrev pub hardened : ℕ
hardened = 2147483648

-- One index behind its last character; the sum is a uint32_t.
pub derivation_index : Casts → Str → Bool → Option ℕ
derivation_index c tmp_index is_hardened = do
  index ← c.cast_u32 tmp_index
  some (if is_hardened then (index + hardened) % 2 ^ 32 else index)

-- The loop over the characters, with `tmpIndex` and `isHardened`.
pub derivation_indexes : Casts → Str → Bool → Str → Option (List ℕ)
unfolding derivation_index
derivation_indexes c tmp_index is_hardened [] = some []
derivation_indexes c tmp_index is_hardened (x ∷ s) =
    let tmp_index' = if is_digit_byte x then tmp_index ++ x ∷ [] else tmp_index in
    let is_hardened' = if x == b'\'' then true else is_hardened in
    elim (x == b'/' || is_empty s) [
      | true ↦ do
        index ← derivation_index c tmp_index' is_hardened'
        rest ← derivation_indexes c [] false s
        some (index ∷ rest)
      | false ↦ derivation_indexes c tmp_index' is_hardened' s
    ]

-- A uint32_t as four bytes, the highest first.
unfoldable pub big_endian : ℕ → Str
big_endian n = (n / 2 ^ 24 % 256) ∷ (n / 2 ^ 16 % 256) ∷ (n / 2 ^ 8 % 256) ∷ (n % 256) ∷ []

unfoldable pub big_endians : List ℕ → Str
unfolding big_endian
big_endians [] = []
big_endians (n ∷ ns) = big_endian n ++ big_endians ns

abbrev pub strip_root : Str → Str
strip_root s = if same (take 2 s) (codes "m/") then drop 2 s else s

-- `garbage` is what `isHardened` holds at the start: the source leaves it uninitialised. The number
-- of derivations is an unsigned char.
pub parse_path : Casts → Bool → Str → Option Str
unfolding derivation_indexes big_endians
parse_path c garbage unparsed_path = do
  indexes ← derivation_indexes c [] garbage (strip_root unparsed_path)
  some ((length indexes % 256) ∷ big_endians indexes)
