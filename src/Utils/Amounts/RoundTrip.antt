-- ===== src/Utils/Amounts/RoundTrip.antt =====
-- weiToFixedPoint and fixedPointToWei against one another.
use avme_wallet.Base.{
  le→leb, not_leb, length, take, drop, replicate, length-append, take-append-drop, length-drop,
  length-replicate, All-append, All-take, All-drop, All-replicate, Str, codes, Digits, ℕ, zero, suc,
  ◌-◌, ◌≤◌, ◌<◌, ◌≡◌, refl, ap, ◌∙◌, ◌≢◌, true, some, [], ◌∷◌, ◌++◌, append-nil, arith, dec_le,
}
use avme_wallet.Utils.Amounts.{
  wei_to_fixed_point, is_digit_byte, only_digits_and_points, before_point, after_point, strip_zeros,
  pad_right, zero_if_empty, assemble, fixed_point_to_wei,
}

-- The bytes that `fixedPointToWei` reads without complaint.
abbrev pub IsAmountByte : ℕ → Type 0
IsAmountByte c = is_digit_byte c ≡ true

pub only-Digits : (s : Str) → Digits s → only_digits_and_points s ≡ true
unfolding only_digits_and_points
only-Digits [] h = refl
only-Digits (c ∷ s) h = ground (arith, only-Digits s h.1)

pub only-append : (s t : Str) → Digits s → Digits t → only_digits_and_points (s ++ b'.' ∷ t) ≡ true
unfolding only_digits_and_points
only-append [] t hs ht = ground (arith, only-Digits t ht)
only-append (c ∷ s) t hs ht = ground (arith, only-append s t hs.1 ht)

pub before-append : (s t : Str) → Digits s → before_point (s ++ b'.' ∷ t) ≡ s
unfolding before_point
before-append [] t h = refl
before-append (c ∷ s) t h = ground (arith, before-append s t h.1)

pub after-append : (s t : Str) → Digits s → after_point (s ++ b'.' ∷ t) ≡ some t
unfolding after_point
after-append [] t h = refl
after-append (c ∷ s) t h = ground (arith, after-append s t h.1)

-- The text with a point at most `decimals` digits from its end is read as the digits run together.
pub fixed_point_to_wei-point :
    (s t : Str) (d : ℕ)
    → Digits s
    → Digits t
    → length t ≤ d
    → fixed_point_to_wei (s ++ b'.' ∷ t) d ≡ zero_if_empty (strip_zeros (s ++ pad_right t d))
unfolding fixed_point_to_wei assemble
fixed_point_to_wei-point s t d hs ht h =
    ground (arith, only-append s t hs ht, before-append s t hs, after-append s t hs)

pad_right_full : (t : Str) (d : ℕ) → length t ≡ d → pad_right t d ≡ t
unfolding pad_right
pad_right_full t d h = let e : d - length t ≡ 0 = omega arith in rw (e, append-nil t)

strip-zeros-append : (n : ℕ) (s : Str) → strip_zeros (replicate n b'0' ++ s) ≡ strip_zeros s
unfolding strip_zeros
strip-zeros-append zero s = refl
strip-zeros-append (suc n) s = strip-zeros-append n s

-- Decimal texts as the program prints numbers: no leading zero, but for zero itself.
pub data IsCanonical : Str → Type 0 where
  zero_text : IsCanonical (codes "0")
  number : (c : ℕ) (s : Str) → Digits (c ∷ s) → c ≢ b'0' → IsCanonical (c ∷ s)

pub IsCanonical-Digits : {s : Str} → IsCanonical s → Digits s
IsCanonical-Digits zero_text = omega arith
IsCanonical-Digits (number c s h n) = h

strip_canonical : {s : Str} → IsCanonical s → zero_if_empty (strip_zeros s) ≡ s
unfolding strip_zeros zero_if_empty
strip_canonical zero_text = refl
strip_canonical (number c s h n) = ground arith

module _ (w : Str) (d : ℕ) (c : IsCanonical w) where
  short : length w ≤ d → fixed_point_to_wei (wei_to_fixed_point w d) d ≡ w
  unfolding wei_to_fixed_point
  short h =
      let zeros : Str = replicate (d - length w) b'0' in
      let full : length (zeros ++ w) ≡ d =
        omega (arith, length-append zeros w, length-replicate {A = ℕ} (d - length w) b'0') in
      let digits : Digits (zeros ++ w) =
        All-append _ zeros w (All-replicate _ _ b'0' (omega arith)) (IsCanonical-Digits c) in
      rw (le→leb (length w) d h) (
        fixed_point_to_wei-point (codes "0") (zeros ++ w) d (omega arith) digits (omega arith)
        ∙ rw (pad_right_full (zeros ++ w) d full)
            (ap zero_if_empty (strip-zeros-append (suc (d - length w)) w) ∙ strip_canonical c))

  long : d < length w → fixed_point_to_wei (wei_to_fixed_point w d) d ≡ w
  unfolding wei_to_fixed_point
  long h =
      let k : ℕ = length w - d in
      let full : length (drop k w) ≡ d = omega (arith, length-drop k w) in
      rw (not_leb (length w) d h) (
        fixed_point_to_wei-point (take k w) (drop k w) d (All-take _ k w (IsCanonical-Digits c))
          (All-drop _ k w (IsCanonical-Digits c)) (omega arith)
        ∙ rw (pad_right_full (drop k w) d full, take-append-drop k w) (strip_canonical c))

-- What is shown is read back: for every number's text and every count of decimals.
pub fixed_point_to_wei-wei_to_fixed_point :
    (w : Str) (d : ℕ) → IsCanonical w → fixed_point_to_wei (wei_to_fixed_point w d) d ≡ w
fixed_point_to_wei-wei_to_fixed_point w d c = elim (dec_le (length w) d) [
  | yes h ↦ short w d c h
  | no h ↦ long w d c (omega arith)
]
