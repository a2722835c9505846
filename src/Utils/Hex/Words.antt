-- ===== src/Utils/Hex/Words.antt =====
-- Every word has 64 characters, and an address survives the way there and back.
use mathlib.Core.List.{reverse-reverse, reverse-append}
use avme_wallet.Base.{
  Option-cases, bind-eq-some, some_inj, length, drop, length-append, length-replicate,
  length-reverse, length-map, Str, codes, zeros, strip_0x, ℕ, zero, suc, ◌+◌, ◌-◌, ◌≤◌, ◌<◌, ◌≡◌,
  refl, sym, ap, ◌∙◌, ◌⊎◌, inl, inr, true, none, some, [], ◌∷◌, ◌++◌, map, reverse, arith, dec_le,
}
use avme_wallet.Utils.Casts.{Casts, CastLaws}
use avme_wallet.Utils.Case.{to_lower}
use avme_wallet.Utils.Hex.{overlay, pad_left, uint_to_hex, address_to_hex, address_from_hex}

overlay_fits : (n k : ℕ) (v : Str) → length v + k ≡ n → overlay (zeros n) v ≡ some (v ++ zeros k)
unfolding overlay
overlay_fits n k [] h = let e : k ≡ n = omega arith in rw e
overlay_fits zero k (c ∷ v) h = absurd (omega arith)
overlay_fits (suc n) k (c ∷ v) h = rw (overlay_fits n k v (omega arith))

overlay_overrun : (n : ℕ) (v : Str) → n < length v → overlay (zeros n) v ≡ none
unfolding overlay
overlay_overrun zero [] h = absurd (omega arith)
overlay_overrun (suc n) [] h = absurd (omega arith)
overlay_overrun zero (c ∷ v) h = refl
overlay_overrun (suc n) (c ∷ v) h = rw (overlay_overrun n v (omega arith))

zeros-snoc : (k : ℕ) → zeros k ++ zeros 1 ≡ zeros (suc k)
zeros-snoc zero = refl
zeros-snoc (suc k) = ap (◌∷◌ b'0') (zeros-snoc k)

reverse-zeros : (k : ℕ) → reverse (zeros k) ≡ zeros k
reverse-zeros zero = refl
reverse-zeros (suc k) = reverse-append (zeros 1) (zeros k) ∙ rw (reverse-zeros k) (zeros-snoc k)

pad_left_fits : (v : Str) → length v ≤ 64 → pad_left v ≡ some (zeros (64 - length v) ++ v)
unfolding pad_left
pad_left_fits v h =
    let k : ℕ = 64 - length v in
    let e : length (reverse v) + k ≡ 64 = omega (arith, length-reverse v) in
    rw (
      overlay_fits 64 k (reverse v) e,
      reverse-append (reverse v) (zeros k),
      reverse-zeros k,
      reverse-reverse v,
    )

pad_left_overrun : (v : Str) → 64 < length v → pad_left v ≡ none
unfolding pad_left
pad_left_overrun v h = rw (overlay_overrun 64 (reverse v) (omega (arith, length-reverse v)))

pub length-pad_left : (v : Str) {w : Str} → pad_left v ≡ some w → (length v ≤ 64) × (length w ≡ 64)
length-pad_left v {w} e = elim (dec_le (length v) 64) [
  | yes h ↦
      let shape : zeros (64 - length v) ++ v ≡ w = some_inj (sym (pad_left_fits v h) ∙ e) in
      let filled = length-replicate {A = ℕ} (64 - length v) b'0' in
      (h, rw (← shape) (omega (arith, length-append (zeros (64 - length v)) v, filled)))
  | no h ↦ cc (pad_left_overrun v (omega arith))
]

-- A number's word has 64 characters, whatever decimal text names it, and is the hexadecimal text of
-- the number behind zeros; the text is refused exactly if boost refuses it.
pub uint_to_hex-word :
    (c : Casts)
    → CastLaws c
    → (s : Str)
    → ((n : ℕ) × (c.cast_u256 s ≡ some n)
        × (uint_to_hex c s true
            ≡ some (zeros (64 - length (c.hex_text n)) ++ map to_lower (c.hex_text n))))
      ⊎ ((c.cast_u256 s ≡ none) × (uint_to_hex c s true ≡ none))
unfolding uint_to_hex
uint_to_hex-word c laws s = elim (Option-cases (c.cast_u256 s)) [
  | inl e ↦ inr (e, rw e)
  | inr (n, e) ↦
      let bound : length (c.hex_text n) ≤ 64 =
        laws.length-hex_text n (laws.cast_u256_bound s n e) in
      let h : ℕ = length (c.hex_text n) in
      let same_length = length-map to_lower (c.hex_text n) in
      inl (n, e, rw e (pad_left_fits (map to_lower (c.hex_text n)) (omega arith) ∙ rw same_length))
]

pub length-uint_to_hex :
    (c : Casts) (s : Str) {w : Str} → uint_to_hex c s true ≡ some w → length w ≡ 64
unfolding uint_to_hex
length-uint_to_hex c s e =
    let (n, e₁, e₂) = bind-eq-some (c.cast_u256 s) _ e in
    (length-pad_left (map to_lower (c.hex_text n)) e₂).1

address_from_hex_long :
    (x y : ℕ) (t : Str) → address_from_hex (x ∷ y ∷ t) ≡ some (x ∷ y ∷ drop 24 t)
unfolding address_from_hex
address_from_hex_long x y t = ground arith

-- Of an address with 40 characters behind an optional "0x" a word is made, and cutting the padding
-- off that word gives the address back, in lower case and with "0x".
pub address_from_hex-address_to_hex :
    (a : Str)
    → length (strip_0x a) ≡ 40
    → (w : Str) × (address_to_hex a ≡ some w)
      × (length w ≡ 64)
      × (address_from_hex (codes "0x" ++ w) ≡ some (codes "0x" ++ map to_lower (strip_0x a)))
unfolding address_to_hex
address_from_hex-address_to_hex a h =
    let v : Str = map to_lower (strip_0x a) in
    let short : length v ≡ 40 = omega (arith, length-map to_lower (strip_0x a)) in
    let e : pad_left v ≡ some (zeros 24 ++ v) = pad_left_fits v (omega arith) ∙ rw short in
    (zeros 24 ++ v, e, (length-pad_left v e).1, address_from_hex_long b'0' b'x' (zeros 24 ++ v))

-- An address text of more than 64 characters makes addressToHex write before its padding.
pub address_to_hex_overrun : (a : Str) → 64 < length (strip_0x a) → address_to_hex a ≡ none
unfolding address_to_hex
address_to_hex_overrun a h =
    pad_left_overrun (map to_lower (strip_0x a)) (omega (arith, length-map to_lower (strip_0x a)))
