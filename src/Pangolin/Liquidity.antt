-- ===== src/Pangolin/Liquidity.antt =====
-- The overflow tests of the liquidity formula are exact.
use native.Mathlib.Nat.{
  mod-eq_of_lt, div-mul-le_self, le-mul_of_pos_right, mul-div_cancel, div-div-eq-div-mul,
  mul-div-mul_right, mod-lt,
}
use avme_wallet.Base.{
  ◌==◌, ==_iff, Bool-cases, ℕ, ◌*◌, ◌/◌, ◌%◌, ◌≤◌, ◌<◌, ◌≡◌, sym, ap, ◌∙◌, subst, ◌⊎◌, inl, inr,
  false, none, some, arith, dec_lt,
}
use avme_wallet.Utils.Casts.{u256_mod}
use avme_wallet.Pangolin.Products.{product_back, wraps-mul, div_pos}
use avme_wallet.Pangolin.{mul_u256, liquidity_out}

module _ (a i o : ℕ) (o_pos : 0 < o) where
  wraps-twice : u256_mod ≤ a * 1000 * o → mul_u256 (mul_u256 a 1000) o / o / 1000 == a ≡ false
  wraps-twice big = elim (Bool-cases (mul_u256 (mul_u256 a 1000) o / o / 1000 == a)) [
    | inr e ↦ e
    | inl e ↦
        let n : ℕ = mul_u256 (mul_u256 a 1000) o in
        let e' : n / (o * 1000) ≡ a =
          sym (div-div-eq-div-mul n o 1000) ∙ (==_iff (n / o / 1000) a).0 e in
        let back : a * (o * 1000) ≤ n =
          subst (λ t. t * (o * 1000) ≤ n) e' (div-mul-le_self n (o * 1000)) in
        let small : n < u256_mod = mod-lt (mul_u256 a 1000 * o) (omega arith) in
        absurd (omega arith)
  ]

  -- For inputs below 2^256 and reserves that are not zero, the result is the exact share, or the empty
  -- text exactly if a product leaves 256 bits.
  pub liquidity_out_exact :
      a < u256_mod
      → i < u256_mod
      → 0 < i
      → ((a * 1000 * o < u256_mod)
          × (i * 1000 < u256_mod)
          × (liquidity_out a i o ≡ some (some (a * o / i))))
        ⊎ (((u256_mod ≤ a * 1000 * o) ⊎ (u256_mod ≤ i * 1000)) × (liquidity_out a i o ≡ some none))
  unfolding liquidity_out
  liquidity_out_exact ha hi i_pos = elim (dec_lt (a * 1000 * o) u256_mod) [
    | no big ↦
        let n : ℕ = mul_u256 (mul_u256 a 1000) o in
        inr (inl (omega arith), rw (div_pos n o o_pos, wraps-twice (omega arith)))
    | yes small ↦
        let grows : a * 1000 ≤ a * 1000 * o = le-mul_of_pos_right (a * 1000) o_pos in
        let e₁ : a * 1000 % u256_mod ≡ a * 1000 = mod-eq_of_lt (omega arith) in
        let e₂ : a * 1000 * o % u256_mod ≡ a * 1000 * o = mod-eq_of_lt small in
        let back : a * 1000 * o / o ≡ a * 1000 = mul-div_cancel (a * 1000) o_pos in
        elim (dec_lt (i * 1000) u256_mod) [
          | no big ↦ inr (
            inr (omega arith),
            rw (
              e₁,
              e₂,
              div_pos (a * 1000 * o) o o_pos,
              back,
              product_back a 1000 (omega arith),
              wraps-mul i 1000 (omega arith) (omega arith),
            ),
          )
          | yes fits ↦
              let e₃ : i * 1000 % u256_mod ≡ i * 1000 = mod-eq_of_lt fits in
              let reorder : a * 1000 * o ≡ a * o * 1000 = omega arith in
              let share : a * 1000 * o / (i * 1000) ≡ a * o / i =
                ap (λ (t : ℕ). t / (i * 1000)) reorder
                ∙ mul-div-mul_right (a * o) i (omega arith) in
              inl (
                small,
                fits,
                rw (
                  e₁,
                  e₂,
                  div_pos (a * 1000 * o) o o_pos,
                  back,
                  product_back a 1000 (omega arith),
                  e₃,
                  product_back i 1000 (omega arith),
                  div_pos (a * 1000 * o) (i * 1000) (omega arith),
                  share,
                ),
              )
        ]
  ]
