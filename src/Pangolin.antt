-- ===== src/Pangolin.antt =====
-- network/Pangolin.cpp: amounts of an exchange in u256 arithmetic, and the words of an answer.
-- A u256 product or sum is taken modulo 2^256, and a quotient by zero is an exception.
pub mod Contracts
pub mod Products
pub mod Exchange
pub mod Liquidity
pub mod Words
use mathlib.Core.Option
use avme_wallet.Base.{
  ltb, ◌==◌, if◌then◌else◌, ◌>>=◌, take, drop, Str, codes, same, strip_0x, ℕ, ◌+◌, ◌*◌, ◌/◌, ◌%◌,
  ◌||◌, not, Option, none, some, List, [], ◌∷◌, ◌++◌, map,
}
use avme_wallet.Utils.Casts.{Casts, u256_mod}

-- Division of u256 throws std::overflow_error on zero.
pub div_u256 : ℕ → ℕ → Option ℕ
div_u256 a b = if b == 0 then none else some (a / b)

abbrev pub mul_u256 : ℕ → ℕ → ℕ
mul_u256 a b = a * b % u256_mod

abbrev pub add_u256 : ℕ → ℕ → ℕ
add_u256 a b = (a + b) % u256_mod

-- The body behind the casts. The empty text is `some none`: an overflow was noticed.
pub exchange_out : ℕ → ℕ → ℕ → Option (Option ℕ)
unfolding div_u256
exchange_out amount_in reserve_in reserve_out =
    let amount_in_with_fee = mul_u256 amount_in 997 in
    if not (amount_in_with_fee / 997 == amount_in) then some none else do
      let numerator = mul_u256 amount_in_with_fee reserve_out
      back ← div_u256 numerator reserve_out
      if not (back == amount_in_with_fee) then some none else do
        let scaled = mul_u256 reserve_in 1000
        if not (scaled / 1000 == reserve_in)
            then some none
            else if ltb (add_u256 scaled amount_in_with_fee) scaled
            then some none
            else do out ← div_u256 numerator (add_u256 scaled amount_in_with_fee); some (some out)

pub liquidity_out : ℕ → ℕ → ℕ → Option (Option ℕ)
unfolding div_u256
liquidity_out amount_in reserve_in reserve_out = do
  let numerator = mul_u256 (mul_u256 amount_in 1000) reserve_out
  back ← div_u256 numerator reserve_out
  if not (back / 1000 == amount_in) then some none else do
    let denominator = mul_u256 reserve_in 1000
    if not (denominator / 1000 == reserve_in)
        then some none
        else do out ← div_u256 numerator denominator; some (some out)

-- boost::lexical_cast<std::string> of the result, or "".
pub show_result : Casts → Option ℕ → Str
show_result c none = []
show_result c (some n) = c.text n

pub calc_exchange_amount_out : Casts → Str → Str → Str → Option Str
calc_exchange_amount_out c amount_in reserve_in reserve_out = do
  a ← c.cast_u256 amount_in
  i ← c.cast_u256 reserve_in
  o ← c.cast_u256 reserve_out
  out ← exchange_out a i o
  some (show_result c out)

pub calc_liquidity_amount_out : Casts → Str → Str → Str → Option Str
calc_liquidity_amount_out c amount_in reserve_in reserve_out = do
  a ← c.cast_u256 amount_in
  i ← c.cast_u256 reserve_in
  o ← c.cast_u256 reserve_out
  out ← liquidity_out a i o
  some (show_result c out)

pub get_first_from_pair : Casts → Str → Str → Option Str
get_first_from_pair c token_address_a token_address_b = do
  a ← c.from_hex 256 token_address_a
  b ← c.from_hex 256 token_address_b
  some (if ltb a b then token_address_a else token_address_b)

-- One round of parseHex on what is left of the text: the value read, if the type is known.
-- `none` is an exception. The second test for "bool" is never reached.
pub parse_word : Casts → Str → Str → Option (List Str)
parse_word c type hex_str =
    if same type (codes "uint") || same type (codes "bool")
    then Option.map (λ value. c.text value ∷ []) (c.from_hex 256 (take 64 hex_str))
    else if same type (codes "address")
    then some ((codes "0x" ++ drop 24 (take 64 hex_str)) ∷ [])
    else some []

-- The loop returns what it has read when an exception is caught.
pub parse_words : Casts → List Str → Str → List Str
unfolding parse_word
parse_words c [] hex_str = []
parse_words c (type ∷ types) hex_str =
    let rest = parse_words c types (drop 64 hex_str) in
    elim (parse_word c type hex_str) [ none ↦ [] | some values ↦ values ++ rest ]

pub parse_hex : Casts → Str → List Str → List Str
unfolding parse_words
parse_hex c hex_str types = parse_words c types (strip_0x hex_str)
