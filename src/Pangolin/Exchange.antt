-- ===== src/Pangolin/Exchange.antt =====
-- The overflow tests of the exchange formulas are exact.
use native.Mathlib.Nat.{
  mod-eq_of_lt, div-mul-le_self, le-mul_of_pos_right, le-div_iff_mul-le, mul-pos, mul-div_cancel,
}
use avme_wallet.Base.{
  ◌==◌, ℕ, zero, suc, ◌+◌, ◌-◌, ◌*◌, ◌/◌, ◌%◌, ◌≤◌, ◌<◌, ◌≡◌, sym, subst, ◌≢◌, ◌⊎◌, inl, inr, true,
  none, some, arith, dec_lt,
}
use avme_wallet.Utils.Casts.{u256_mod}
use avme_wallet.Pangolin.Products.{product_back, wraps-mul, div_pos}
use avme_wallet.Pangolin.{exchange_out}

module _ (a i o : ℕ) (o_pos : 0 < o) where
  -- With an output's reserve that is not zero: if no product or sum leaves 256 bits and the
  -- denominator is not zero, the result is the exact quotient.
  pub exchange_out_exact :
      a * 997 * o < u256_mod
      → i * 1000 + a * 997 < u256_mod
      → 0 < i * 1000 + a * 997
      → exchange_out a i o ≡ some (some (a * 997 * o / (i * 1000 + a * 997)))
  unfolding exchange_out
  exchange_out_exact small sum pos =
      let grows : a * 997 ≤ a * 997 * o = le-mul_of_pos_right (a * 997) o_pos in
      let e₁ : a * 997 % u256_mod ≡ a * 997 = mod-eq_of_lt (omega arith) in
      let e₂ : a * 997 * o % u256_mod ≡ a * 997 * o = mod-eq_of_lt small in
      let e₃ : i * 1000 % u256_mod ≡ i * 1000 = mod-eq_of_lt (omega arith) in
      let e₄ : (i * 1000 + a * 997) % u256_mod ≡ i * 1000 + a * 997 = mod-eq_of_lt sum in
      let back : a * 997 * o / o ≡ a * 997 = mul-div_cancel (a * 997) o_pos in
      rw
        (
          e₁,
          e₂,
          e₃,
          e₄,
          div_pos (a * 997 * o) o o_pos,
          back,
          div_pos (a * 997 * o) (i * 1000 + a * 997) pos,
        )
        (ground arith)

  -- With an output's reserve that is not zero and inputs below 2^256: if the product with the reserve
  -- or the denominator leaves 256 bits, the result is the empty text.
  exchange_out_overflow :
      a < u256_mod
      → i < u256_mod
      → (u256_mod ≤ a * 997 * o) ⊎ (u256_mod ≤ i * 1000 + a * 997)
      → exchange_out a i o ≡ some none
  unfolding exchange_out
  exchange_out_overflow ha hi over = elim (dec_lt (a * 997) u256_mod) [
    | no big ↦ rw (wraps-mul a 997 (omega arith) (omega arith))
    | yes fee ↦ elim (dec_lt (a * 997 * o) u256_mod) [
      | no big ↦
          let e₁ : a * 997 % u256_mod ≡ a * 997 = mod-eq_of_lt fee in
          let first : a * 997 / 997 == a ≡ true = product_back a 997 (omega arith) in
          rw (
            e₁,
            first,
            div_pos (a * 997 * o % u256_mod) o o_pos,
            wraps-mul (a * 997) o o_pos (omega arith),
          )
      | yes small ↦
          let e₁ : a * 997 % u256_mod ≡ a * 997 = mod-eq_of_lt fee in
          let e₂ : a * 997 * o % u256_mod ≡ a * 997 * o = mod-eq_of_lt small in
          let first : a * 997 / 997 == a ≡ true = product_back a 997 (omega arith) in
          let back : a * 997 * o / o == a * 997 ≡ true = product_back (a * 997) o o_pos in
          rw (e₁, first, e₂, div_pos (a * 997 * o) o o_pos, back) (ground arith)
    ]
  ]

exchange_out_zero : (a i r : ℕ) → exchange_out a i 0 ≢ some (some r)
unfolding exchange_out
exchange_out_zero a i r e = ground arith

product_kept :
    (a i r s : ℕ) → r * (i * 1000 + a * 997) ≤ a * 997 * (r + s) → i * (r + s) ≤ (i + a) * s
product_kept a i r s h = omega arith

quotient_lt : (a i o : ℕ) → 0 < i → 0 < o → a * 997 * o / (i * 1000 + a * 997) < o
quotient_lt a i o hi ho = elim (dec_lt (a * 997 * o / (i * 1000 + a * 997)) o) [
  | yes h ↦ h
  | no h ↦
      let enough : o * (i * 1000 + a * 997) ≤ a * 997 * o =
        (le-div_iff_mul-le (omega arith)).0 (omega arith) in
      let some_in : 0 < o * i = mul-pos ho hi in absurd (omega arith)
]

exchange_out_cases :
    (a i o : ℕ)
    → a < u256_mod
    → i < u256_mod
    → 0 < o
    → 0 < i
    → (exchange_out a i o ≡ some none)
      ⊎ (exchange_out a i o ≡ some (some (a * 997 * o / (i * 1000 + a * 997))))
exchange_out_cases a i o ha hi ho hi' = elim (dec_lt (a * 997 * o) u256_mod) [
  | no big ↦ inl (exchange_out_overflow a i o ho ha hi (inl (omega arith)))
  | yes small ↦ elim (dec_lt (i * 1000 + a * 997) u256_mod) [
    | no big ↦ inl (exchange_out_overflow a i o ho ha hi (inr (omega arith)))
    | yes sum ↦ inr (exchange_out_exact a i o ho small sum (omega arith))
  ]
]

-- For an amount and a reserve of the input below 2^256, the reserve not zero: whatever amount comes
-- out is the exact quotient, so it is less than the output's reserve and the product of the reserves
-- does not fall.
pub exchange_out_sound :
    (a i o r : ℕ)
    → a < u256_mod
    → i < u256_mod
    → 0 < i
    → exchange_out a i o ≡ some (some r)
    → (r ≡ a * 997 * o / (i * 1000 + a * 997)) × (r < o) × (i * o ≤ (i + a) * (o - r))
exchange_out_sound a i zero r ha hi i_pos e = absurd (exchange_out_zero a i r e)
exchange_out_sound a i (suc k) r ha hi i_pos e =
    let o : ℕ = suc k in
    let d : ℕ = i * 1000 + a * 997 in
    elim (exchange_out_cases a i o ha hi (omega arith) i_pos) [
      | inl refused ↦ cc
      | inr out ↦
          let exact : r ≡ a * 997 * o / d = cc in
          let less : r < o = rw exact (quotient_lt a i o i_pos (omega arith)) in
          let below : r * d ≤ a * 997 * o = rw exact (div-mul-le_self (a * 997 * o) d) in
          let split : o ≡ r + (o - r) = omega arith in
          let kept : i * (r + (o - r)) ≤ (i + a) * (o - r) =
            product_kept a i r (o - r) (subst (λ t. r * d ≤ a * 997 * t) split below) in
          (exact, less, subst (λ t. i * t ≤ (i + a) * (o - r)) (sym split) kept)
    ]
