-- ===== src/Costs.antt =====
-- qmlwrap/QmlSend.cpp: amounts and fees before a transaction. The conversions are boost's.
pub mod Balances
use avme_wallet.Base.{ltb, if◌then◌else◌, ◌>>=◌, Str, ℕ, ◌-◌, ◌<◌, ◌≡◌, Bool, Option, some}
use avme_wallet.Utils.Casts.{u256_mod}
use avme_wallet.Utils.Amounts.{wei_to_fixed_point, fixed_point_to_wei}
use avme_wallet.Utils.Amounts.RoundTrip.{IsCanonical}
use avme_wallet.Pangolin.{mul_u256, add_u256}

pub record Amounts : Type 0 where
  -- the constructor of u256 from a text; `none` is its exception
  pub to_u256 : Str → Option ℕ
  -- boost::lexical_cast<std::string> of a u256
  pub text : ℕ → Str

-- What boost documents of them.
pub record AmountLaws (a : Amounts) : Type 0 where
  pub to_u256_bound : (s : Str) (n : ℕ) → a.to_u256 s ≡ some n → n < u256_mod
  pub to_u256-text : (n : ℕ) → n < u256_mod → a.to_u256 (a.text n) ≡ some n
  pub text-IsCanonical : (n : ℕ) → IsCanonical (a.text n)

-- The fee and the total, from their texts: gas limit in wei, gas price in gwei, the amount in AVAX.
-- u256 is unchecked, so the product and the sum wrap around.
unfoldable pub fee_of : Amounts → Str → Str → Option ℕ
fee_of a gas_limit gas_price = do
  gas_limit_u256 ← a.to_u256 gas_limit
  gas_price_u256 ← a.to_u256 (fixed_point_to_wei gas_price 9)
  some (mul_u256 gas_limit_u256 gas_price_u256)

unfoldable pub max_of : ℕ → ℕ → ℕ
max_of total fee = if ltb total fee then 0 else total - fee

unfoldable pub get_real_max_avax_amount : Amounts → Str → Str → Str → Option Str
get_real_max_avax_amount a total_balance gas_limit gas_price = do
  fee ← fee_of a gas_limit gas_price
  total_u256 ← a.to_u256 (fixed_point_to_wei total_balance 18)
  some (wei_to_fixed_point (a.text (max_of total_u256 fee)) 18)

unfoldable pub calculate_transaction_cost : Amounts → Str → Str → Str → Option Str
calculate_transaction_cost a amount gas_limit gas_price = do
  amount_u256 ← a.to_u256 (fixed_point_to_wei amount 18)
  fee ← fee_of a gas_limit gas_price
  some (wei_to_fixed_point (a.text (add_u256 amount_u256 fee)) 18)

unfoldable pub has_insufficient_funds : Amounts → Str → Str → ℕ → Option Bool
has_insufficient_funds a sender_amount receiver_amount decimals = do
  sender_u256 ← a.to_u256 (fixed_point_to_wei sender_amount decimals)
  receiver_u256 ← a.to_u256 (fixed_point_to_wei receiver_amount decimals)
  some (ltb sender_u256 receiver_u256)
