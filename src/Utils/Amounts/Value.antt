-- ===== src/Utils/Amounts/Value.antt =====
-- The number behind an amount's text.
use native.Mathlib.Nat.{pow-suc}
use avme_wallet.Base.{
  ltb, if◌then◌else◌, Bool-cases, length, replicate, length-append, length-replicate, Str, Digits,
  ℕ, zero, suc, ◌+◌, ◌-◌, ◌*◌, ◌^◌, ◌≤◌, ◌<◌, ◌≡◌, refl, ◌∙◌, ◌≢◌, ◌↔◌, ◌⊎◌, inl, inr, false,
  Option, none, some, [], ◌∷◌, ◌++◌, arith,
}
use avme_wallet.Utils.Amounts.{
  only_digits_and_points, before_point, after_point, strip_zeros, pad_right, zero_if_empty,
  assemble, fixed_point_to_wei,
}
use avme_wallet.Utils.Amounts.RoundTrip.{fixed_point_to_wei-point}

-- The number that decimal digits spell behind `n`.
abbrev pub value : ℕ → Str → ℕ
value n [] = n
value n (c ∷ s) = value (n * 10 + (c - b'0')) s

pub value-append : (n : ℕ) (s t : Str) → value n (s ++ t) ≡ value (value n s) t
value-append n [] t = refl
value-append n (c ∷ s) t = value-append (n * 10 + (c - b'0')) s t

value-zeros : (n k : ℕ) → value n (replicate k b'0') ≡ n * 10 ^ k
value-zeros n zero = grind arith
value-zeros n (suc k) = value-zeros (n * 10 + 0) k ∙ rw (pow-suc 10 k) (grind arith)

-- The digits before a text weigh ten to its length.
value-shift : (n : ℕ) (s : Str) → value n s ≡ n * 10 ^ length s + value 0 s
value-shift n [] = grind arith
value-shift n (c ∷ s) =
    let d : ℕ = c - b'0' in
    rw (value-shift (n * 10 + d) s, value-shift (0 + d) s, pow-suc 10 (length s)) (grind arith)

value-strip : (s : Str) → value 0 (strip_zeros s) ≡ value 0 s
unfolding strip_zeros
value-strip [] = refl
value-strip (c ∷ s) = ground (arith, value-strip s)

value-zero_if_empty : (s : Str) → value 0 (zero_if_empty s) ≡ value 0 s
unfolding zero_if_empty
value-zero_if_empty [] = refl
value-zero_if_empty (c ∷ s) = refl

-- An amount with at most `d` decimals is read exactly: the whole part times ten to the `d`, and the
-- fraction scaled to `d` decimals.
pub value-fixed_point_to_wei :
    (s t : Str) (d : ℕ)
    → Digits s
    → Digits t
    → length t ≤ d
    → value 0 (fixed_point_to_wei (s ++ b'.' ∷ t) d)
      ≡ value 0 s * 10 ^ d + value 0 t * 10 ^ (d - length t)
unfolding pad_right
value-fixed_point_to_wei s t d hs ht h =
    let zeros : Str = replicate (d - length t) b'0' in
    let full : length (t ++ zeros) ≡ d =
      omega (arith, length-append t zeros, length-replicate {A = ℕ} (d - length t) b'0') in
    rw (
      fixed_point_to_wei-point s t d hs ht h,
      value-zero_if_empty (strip_zeros (s ++ (t ++ zeros))),
      value-strip (s ++ (t ++ zeros)),
      value-append 0 s (t ++ zeros),
      value-shift (value 0 s) (t ++ zeros),
      full,
      value-append 0 t zeros,
      value-zeros (value 0 t) (d - length t),
    )

zero_if_empty-ne-nil : (s : Str) → zero_if_empty s ≢ []
unfolding zero_if_empty
zero_if_empty-ne-nil [] = λ e. cc
zero_if_empty-ne-nil (c ∷ s) = λ e. cc

-- The digits run together, kept shut.
run_together : Str → Str → ℕ → Str
run_together whole fraction d = zero_if_empty (strip_zeros (whole ++ pad_right fraction d))

assemble_lem :
    (w : Str) (o : Option Str) (d : ℕ)
    → assemble w o d ≡ elim o [
      | none ↦ run_together w [] d
      | some f ↦ if ltb d (length f) then [] else run_together w f d
    ]
unfolding assemble run_together
assemble_lem w none d = refl
assemble_lem w (some f) d = refl

run_together-ne-nil : (w f : Str) (d : ℕ) → run_together w f d ≢ []
unfolding run_together
run_together-ne-nil w f d = zero_if_empty-ne-nil (strip_zeros (w ++ pad_right f d))

abbrev TooLong : Option Str → ℕ → Type 0
TooLong o d = (f : Str) × (o ≡ some f) × (d < length f)

assemble_refuses : (w : Str) (o : Option Str) (d : ℕ) → (assemble w o d ≡ []) ↔ TooLong o d
assemble_refuses w none d =
    (λ e. absurd (run_together-ne-nil w [] d (rw (← assemble_lem w none d) e)), λ (f, e, h). cc)
assemble_refuses w (some f) d =
    rw (assemble_lem w (some f) d)
      (λ e. (f, refl, ground (arith, run_together-ne-nil w f d)), λ (g, e, h). ground arith)

-- An amount is refused, with the empty text, exactly if a byte is neither digit nor point, or more
-- than `d` bytes follow the first point.
fixed_point_to_wei_refuses :
    (a : Str) (d : ℕ)
    → (fixed_point_to_wei a d ≡ []) ↔ (
        (only_digits_and_points a ≡ false)
        ⊎ ((f : Str) × (after_point a ≡ some f) × (d < length f)))
unfolding fixed_point_to_wei
fixed_point_to_wei_refuses a d = elim (Bool-cases (only_digits_and_points a)) [
  | inl good ↦ rw good (
      let (to, from) = assemble_refuses (before_point a) (after_point a) d in
      (λ e. inr (to e), λ h. elim h [ inl bad ↦ cc | inr long ↦ from long ]))
  | inr bad ↦ rw bad (λ e. inl refl, λ h. refl)
]
