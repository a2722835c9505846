-- ===== src/Utils/Amounts.antt =====
-- core/Utils.cpp, weiToFixedPoint and fixedPointToWei: amounts as decimal texts.
-- `decimals` is an int that no caller passes negative.
pub mod Value
pub mod RoundTrip
use avme_wallet.Base.{
  ℕ, ◌-◌, Bool, true, false, List, [], ◌∷◌, ◌++◌, Option, none, some, ◌==◌, leb, ltb, ◌||◌, ◌&&◌,
  if◌then◌else◌, Str, codes, is_empty, length, take, drop, replicate,
}

-- The padding loop appends one "0" a round.
pub wei_to_fixed_point : Str → ℕ → Str
wei_to_fixed_point amount digits =
    let point = length amount - digits in
    if leb (length amount) digits
    then codes "0." ++ replicate (digits - length amount) b'0' ++ amount
    else take point amount ++ b'.' ∷ drop point amount

unfoldable pub is_digit_byte : ℕ → Bool
is_digit_byte c = leb b'0' c && leb c b'9'

-- amount.find_first_not_of("0123456789.") == npos
pub only_digits_and_points : Str → Bool
unfolding is_digit_byte
only_digits_and_points [] = true
only_digits_and_points (c ∷ s) = (is_digit_byte c || c == b'.') && only_digits_and_points s

-- The first loop: the bytes before the first point.
pub before_point : Str → Str
before_point [] = []
before_point (c ∷ s) = elim (c == b'.') [ true ↦ [] | false ↦ c ∷ before_point s ]

-- What `index` has left behind the jump; `none` where no point was met.
pub after_point : Str → Option Str
after_point [] = none
after_point (c ∷ s) = elim (c == b'.') [ true ↦ some s | false ↦ after_point s ]

-- while (valuestr[0] == '0') valuestr.erase(0, 1); behind the end stands a NUL.
pub strip_zeros : Str → Str
strip_zeros [] = []
strip_zeros (c ∷ s) = elim (c == b'0') [ true ↦ strip_zeros s | false ↦ c ∷ s ]

-- while (digitPadding.size() < decimals) digitPadding += '0';
pub pad_right : Str → ℕ → Str
pad_right s decimals = s ++ replicate (decimals - length s) b'0'

pub zero_if_empty : Str → Str
zero_if_empty s = if is_empty s then codes "0" else s

pub assemble : Str → Option Str → ℕ → Str
unfolding zero_if_empty pad_right strip_zeros
assemble whole none decimals = zero_if_empty (strip_zeros (whole ++ pad_right [] decimals))
assemble whole (some fraction) decimals =
    if ltb decimals (length fraction)
    then []
    else zero_if_empty (strip_zeros (whole ++ pad_right fraction decimals))

pub fixed_point_to_wei : Str → ℕ → Str
unfolding only_digits_and_points before_point after_point assemble
fixed_point_to_wei amount decimals =
    if only_digits_and_points amount
    then assemble (before_point amount) (after_point amount) decimals
    else []
