-- ===== src/Tests/Fees.antt =====
-- qmlwrap/QmlSend.cpp at concrete inputs.
use avme_wallet.Base.{Str, ℕ, ◌+◌, ◌*◌, ◌≤◌, ◌<◌, ◌≡◌, refl, ◌⊎◌, false, some, arith}
use avme_wallet.Utils.Casts.{CastLaws}
use avme_wallet.Utils.Amounts.{wei_to_fixed_point, fixed_point_to_wei}
use avme_wallet.Costs.{
  Amounts, AmountLaws, get_real_max_avax_amount, calculate_transaction_cost, has_insufficient_funds,
}
use avme_wallet.Costs.Balances.{
  to_u256-shown, HasFee, get_real_max_avax_amount_bound, calculate_transaction_cost-max,
}
use avme_wallet.Tests.Conversions.{decimal_text, conversions, conversions-CastLaws}

abbrev amounts : Amounts
amounts = record { to_u256 = conversions.cast_u256; text = conversions.text }

amounts-AmountLaws : AmountLaws amounts
amounts-AmountLaws = record {
  to_u256_bound = CastLaws.cast_u256_bound conversions-CastLaws;
  to_u256-text = CastLaws.cast_u256-text conversions-CastLaws;
  text-IsCanonical = CastLaws.text-IsCanonical conversions-CastLaws;
}

-- 21000 of gas at 25 gwei.
abbrev limit : Str
limit = decimal_text 21000

abbrev price : Str
price = wei_to_fixed_point (decimal_text 25000000000) 9

abbrev fee : ℕ
fee = 21000 * 25000000000

limit_and_price : HasFee amounts limit price fee
limit_and_price = (
  21000,
  25000000000,
  amounts-AmountLaws.to_u256-text 21000 (omega arith),
  to_u256-shown amounts amounts-AmountLaws 25000000000 9 (omega arith),
  refl,
)

abbrev one_avax : ℕ
one_avax = 1000000000000000000

abbrev balance : Str
balance = wei_to_fixed_point (decimal_text one_avax) 18

balance_read : amounts.to_u256 (fixed_point_to_wei balance 18) ≡ some one_avax
balance_read = to_u256-shown amounts amounts-AmountLaws one_avax 18 (omega arith)

get_real_max_avax_amount_bound_example :
    (n : ℕ) × (get_real_max_avax_amount amounts balance limit price
      ≡ some (wei_to_fixed_point (decimal_text n) 18))
    × (n ≤ one_avax)
    × ((one_avax < fee) × (n ≡ 0) ⊎ (n + fee ≡ one_avax))
get_real_max_avax_amount_bound_example =
    get_real_max_avax_amount_bound amounts balance limit price fee one_avax limit_and_price
      (omega arith) balance_read

calculate_transaction_cost-max_example :
    (amount cost : Str) × (get_real_max_avax_amount amounts balance limit price ≡ some amount)
    × (calculate_transaction_cost amounts amount limit price ≡ some cost)
    × (cost ≡ wei_to_fixed_point (decimal_text one_avax) 18)
    × (has_insufficient_funds amounts balance cost 18 ≡ some false)
calculate_transaction_cost-max_example =
    calculate_transaction_cost-max amounts amounts-AmountLaws balance limit price fee one_avax
      limit_and_price (omega arith) balance_read
