-- ===== src/Costs/Balances.antt =====
-- The amounts that can be sent, and that they cost no more than the balance.
use avme_wallet.Base.{
  lt→ltb, not_ltb, Str, ℕ, ◌+◌, ◌-◌, ◌*◌, ◌%◌, ◌≤◌, ◌<◌, ◌≡◌, refl, ap, ◌∙◌, ◌⊎◌, inl, inr, false,
  some, arith, dec_lt,
}
use avme_wallet.Utils.Casts.{u256_mod}
use avme_wallet.Utils.Amounts.{wei_to_fixed_point, fixed_point_to_wei}
use avme_wallet.Utils.Amounts.RoundTrip.{fixed_point_to_wei-wei_to_fixed_point}
use avme_wallet.Costs.{
  Amounts, AmountLaws, fee_of, max_of, get_real_max_avax_amount, calculate_transaction_cost,
  has_insufficient_funds,
}
use avme_wallet.Pangolin.{add_u256}

-- What is shown of a number is read back as the number.
pub to_u256-shown :
    (a : Amounts)
    → AmountLaws a
    → (n decimals : ℕ) → n < u256_mod
    → a.to_u256 (fixed_point_to_wei (wei_to_fixed_point (a.text n) decimals) decimals) ≡ some n
to_u256-shown a laws n decimals h =
    ap a.to_u256
      (fixed_point_to_wei-wei_to_fixed_point (a.text n) decimals (laws.text-IsCanonical n))
    ∙ laws.to_u256-text n h

-- The exact fee of a gas limit and a gas price that are read as numbers.
abbrev pub HasFee : Amounts → Str → Str → ℕ → Type 0
HasFee a gas_limit gas_price fee =
    (limit price : ℕ) × (a.to_u256 gas_limit ≡ some limit)
    × (a.to_u256 (fixed_point_to_wei gas_price 9) ≡ some price)
    × (fee ≡ limit * price)

fee_of-HasFee :
    (a : Amounts) (gas_limit gas_price : Str) (fee : ℕ)
    → HasFee a gas_limit gas_price fee
    → fee_of a gas_limit gas_price ≡ some (fee % u256_mod)
unfolding fee_of
fee_of-HasFee a gas_limit gas_price fee (limit, price, e, e', product) = rw (e, e', product) refl

fee_of-small :
    (a : Amounts) (gas_limit gas_price : Str) (fee : ℕ)
    → HasFee a gas_limit gas_price fee
    → fee < u256_mod
    → fee_of a gas_limit gas_price ≡ some fee
fee_of-small a gas_limit gas_price fee has small =
    fee_of-HasFee a gas_limit gas_price fee has ∙ ap some (omega arith)

max_of_above : (total fee : ℕ) → total < fee → max_of total fee ≡ 0
unfolding max_of
max_of_above total fee h = rw (lt→ltb total fee h) refl

max_of_below : (total fee : ℕ) → fee ≤ total → max_of total fee ≡ total - fee
unfolding max_of
max_of_below total fee h = rw (not_ltb total fee h) refl

max_of-cases :
    (total fee : ℕ)
    → (max_of total fee ≤ total)
      × ((total < fee) × (max_of total fee ≡ 0) ⊎ (max_of total fee + fee ≡ total))
max_of-cases total fee = elim (dec_lt total fee) [
  | yes h ↦ let e = max_of_above total fee h in (omega arith, inl (h, e))
  | no h ↦ let e = max_of_below total fee (omega arith) in (omega arith, inr (omega arith))
]

-- For a fee below 2^256 the greatest amount that can be sent is zero if the fee is above the balance,
-- and else what is left of the balance, so that it and the fee are together the balance.
pub get_real_max_avax_amount_bound :
    (a : Amounts) (total_balance gas_limit gas_price : Str) (fee total : ℕ)
    → HasFee a gas_limit gas_price fee
    → fee < u256_mod
    → a.to_u256 (fixed_point_to_wei total_balance 18) ≡ some total
    → (n : ℕ) × (get_real_max_avax_amount a total_balance gas_limit gas_price
        ≡ some (wei_to_fixed_point (a.text n) 18))
      × (n ≤ total)
      × ((total < fee) × (n ≡ 0) ⊎ (n + fee ≡ total))
unfolding get_real_max_avax_amount
get_real_max_avax_amount_bound a total_balance gas_limit gas_price fee total has small e_total =
    let e_fee = fee_of-small a gas_limit gas_price fee has small in
    let (bound, both) = max_of-cases total fee in
    (max_of total fee, rw (e_fee, e_total) refl, bound, both)

-- If the exact fee is above the balance, and what 256 bits keep of it is not, then the amount that is
-- offered as the greatest one cannot be paid: with the exact fee it is above the balance.
pub get_real_max_avax_amount_wraps :
    (a : Amounts) (total_balance gas_limit gas_price : Str) (fee total : ℕ)
    → HasFee a gas_limit gas_price fee
    → total < fee
    → fee % u256_mod < total
    → a.to_u256 (fixed_point_to_wei total_balance 18) ≡ some total
    → (n : ℕ) × (get_real_max_avax_amount a total_balance gas_limit gas_price
        ≡ some (wei_to_fixed_point (a.text n) 18))
      × (0 < n)
      × (total < n + fee)
unfolding get_real_max_avax_amount
get_real_max_avax_amount_wraps a total_balance gas_limit gas_price fee total has above kept
      e_total =
    let e_fee = fee_of-HasFee a gas_limit gas_price fee has in
    let e = max_of_below total (fee % u256_mod) (omega (arith, kept)) in
    (
      max_of total (fee % u256_mod),
      rw (e_fee, e_total) refl,
      omega (arith, kept, e),
      omega (arith, above),
    )

-- The greatest amount that is offered for a balance costs the balance: its cost with the same gas, for
-- a fee that the balance can pay, is shown as the balance, and the balance is not insufficient for it.
pub calculate_transaction_cost-max :
    (a : Amounts)
    → AmountLaws a
    → (total_balance gas_limit gas_price : Str) (fee total : ℕ) → HasFee a gas_limit gas_price fee
    → fee ≤ total
    → a.to_u256 (fixed_point_to_wei total_balance 18) ≡ some total
    → (amount cost : Str) × (get_real_max_avax_amount a total_balance gas_limit gas_price
        ≡ some amount)
      × (calculate_transaction_cost a amount gas_limit gas_price ≡ some cost)
      × (cost ≡ wei_to_fixed_point (a.text total) 18)
      × (has_insufficient_funds a total_balance cost 18 ≡ some false)
unfolding get_real_max_avax_amount calculate_transaction_cost has_insufficient_funds
calculate_transaction_cost-max a laws total_balance gas_limit gas_price fee total has below
      e_total =
    let bound = laws.to_u256_bound _ total e_total in
    let e_fee = fee_of-small a gas_limit gas_price fee has (omega arith) in
    let e_max = max_of_below total fee below in
    let e_amount = to_u256-shown a laws (total - fee) 18 (omega arith) in
    let sum : add_u256 (total - fee) fee ≡ total = omega (arith, bound, below) in
    (
      wei_to_fixed_point (a.text (total - fee)) 18,
      wei_to_fixed_point (a.text total) 18,
      rw (e_fee, e_total, e_max) refl,
      rw (e_amount, e_fee, sum) refl,
      refl,
      rw (e_total, to_u256-shown a laws total 18 bound, not_ltb total total (omega arith)) refl,
    )
