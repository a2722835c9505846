-- ===== src/Utils/Rounding.antt =====
-- core/Utils.cpp, roundUp, over the integers: an int's overflow is left out. The remainder of an
-- absolute value is taken; callers pass a `multiple` that is not negative.
use avme_wallet.Base.{
  ◌==◌, if◌then◌else◌, ℕ, zero, suc, ◌+◌, ◌-◌, ◌*◌, ◌/◌, ◌%◌, ◌≤◌, ◌<◌, ◌≡◌, ap, arith, dec_lt,
}
use native.Mathlib.Nat.{div-add-mod, mod-lt, mul-mod_right}

-- `negsuc n` is -(n + 1).
pub data ℤ : Type 0 where
  pos : ℕ → ℤ
  negsuc : ℕ → ℤ

abbrev pub abs : ℤ → ℕ
abs (pos n) = n
abs (negsuc n) = suc n

abbrev pub negate : ℕ → ℤ
negate zero = pos 0
negate (suc n) = negsuc n

-- The sum is reached on numbers from zero up only.
pub round_up : ℤ → ℕ → ℤ
round_up num multiple =
    let remainder = abs num % multiple in
    if multiple == 0
    then num
    else if remainder == 0
    then num
    else elim num [ pos n ↦ pos (n + multiple - remainder) | negsuc n ↦ negate (suc n - remainder) ]

round_up-neg : (n m : ℕ) → 0 < m → round_up (negate n) m ≡ negate (n - n % m)
unfolding round_up
round_up-neg zero m h = ground arith
round_up-neg (suc n) m h = elim (dec_lt 0 (suc n % m)) [
  | yes p ↦ ground arith
  | no p ↦
      let e : suc n % m ≡ 0 = omega arith in
      let e' : suc n - 0 ≡ suc n = omega arith in rw (e, e') (ground arith)
]

module _ (n m : ℕ) (h : 0 < m) where
  up : ℕ
  up = let r = n % m in if r == 0 then n else n + m - r

  round_up-pos : round_up (pos n) m ≡ pos up
  unfolding round_up up
  round_up-pos = ground arith

  up-multiple : up % m ≡ 0
  unfolding up
  up-multiple = elim (dec_lt 0 (n % m)) [
    | yes p ↦
        let next : n + m - n % m ≡ m * (n / m + 1) = grind (arith, div-add-mod n m) in
        ground (arith, ap (λ (t : ℕ). t % m) next, mul-mod_right m (n / m + 1))
    | no p ↦ ground arith
  ]

  down-multiple : (n - n % m) % m ≡ 0
  down-multiple =
      let below : n - n % m ≡ m * (n / m) = omega (arith, div-add-mod n m) in
      rw below (mul-mod_right m (n / m))

-- The result is the least multiple that is not below the number, for numbers from zero up and for
-- those from zero down.
pub round_up_least :
    (n m : ℕ)
    → 0 < m
    → ((p : ℕ) × (round_up (pos n) m ≡ pos p) × (p % m ≡ 0) × (n ≤ p) × (p < n + m))
      × ((p : ℕ) × (round_up (negate n) m ≡ negate p) × (p % m ≡ 0) × (p ≤ n) × (n < p + m))
unfolding up
round_up_least n m h =
    let small : n % m < m = mod-lt n h in
    (
      (up n m h, round_up-pos n m h, up-multiple n m h, ground arith, ground arith),
      (n - n % m, round_up-neg n m h, down-multiple n m h, omega arith, omega arith),
    )
