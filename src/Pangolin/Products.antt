-- ===== src/Pangolin/Products.antt =====
-- u256 products and quotients.
use native.Mathlib.Nat.{mod-eq_of_lt, div-mul-le_self, mul-div_cancel}
use avme_wallet.Base.{
  ◌==◌, ==_iff, Bool-cases, ℕ, ◌*◌, ◌/◌, ◌≤◌, ◌<◌, ◌≡◌, subst, ◌↔◌, inl, inr, true, false, some,
  arith,
}
use avme_wallet.Utils.Casts.{u256_mod}
use avme_wallet.Pangolin.{div_u256, mul_u256}

-- A wrapped product divides back exactly if it did not wrap.
pub product_exact : (a b : ℕ) → 0 < b → (mul_u256 a b / b ≡ a) ↔ (a * b < u256_mod)
product_exact a b h = (
  λ e.
      let back : a * b ≤ mul_u256 a b =
        subst (λ t. t * b ≤ mul_u256 a b) e (div-mul-le_self (mul_u256 a b) b) in
      omega arith,
  λ l. rw (mod-eq_of_lt l) (mul-div_cancel a h),
)

pub product_back : (a b : ℕ) → 0 < b → a * b / b == a ≡ true
product_back a b h = (==_iff (a * b / b) a).1 (mul-div_cancel a h)

pub wraps-mul : (a b : ℕ) → 0 < b → u256_mod ≤ a * b → mul_u256 a b / b == a ≡ false
wraps-mul a b h l = elim (Bool-cases (mul_u256 a b / b == a)) [
  | inl e ↦
      absurd (let fits = (product_exact a b h).0 ((==_iff (mul_u256 a b / b) a).0 e) in omega arith)
  | inr e ↦ e
]

pub div_pos : (a b : ℕ) → 0 < b → div_u256 a b ≡ some (a / b)
unfolding div_u256
div_pos a b h = ground arith
