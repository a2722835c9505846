-- ===== src/Tests/Conversions.antt =====
-- Conversions as boost documents them, written out: decimal and hexadecimal texts of numbers.
use native.Mathlib.Nat.{pow-suc}
use avme_wallet.Base.{
  ltb, leb, if◌then◌else◌, lt→ltb, not_ltb, ◌>>=◌, length, length-append, All-append, length-map,
  Str, strip_0x, Digits, ℕ, zero, suc, ◌+◌, ◌-◌, ◌*◌, ◌/◌, ◌%◌, ◌^◌, ◌≤◌, ◌<◌, ◌≡◌, refl, sym, ap,
  ◌∙◌, subst, ◌≢◌, Bool, true, ◌&&◌, Option, none, some, List, map-append, [], ◌∷◌, ◌++◌, map,
  arith, dec_lt,
}
use avme_wallet.Utils.Casts.{Casts, u256_mod, CastLaws}
use avme_wallet.Utils.Amounts.RoundTrip.{IsCanonical, zero_text, number}
use avme_wallet.Utils.Amounts.Value.{value, value-append}

-- Digits of a number, most significant first; as many rounds as the number is large are enough.
unfoldable pub print : ℕ → ℕ → ℕ → List ℕ
print base zero n = []
print base (suc fuel) n =
    let rest = print base fuel (n / base) in if ltb n base then n ∷ [] else rest ++ (n % base) ∷ []

abbrev pub hex_digit : ℕ → ℕ
hex_digit d = if ltb d 10 then b'0' + d else 87 + d

abbrev pub dec_digit : ℕ → ℕ
dec_digit d = b'0' + d

abbrev all_digits : Str → Bool
all_digits [] = true
all_digits (c ∷ s) = leb b'0' c && leb c b'9' && all_digits s

abbrev pub read_decimal : ℕ → Str → Option ℕ
read_decimal bound [] = none
read_decimal bound (c ∷ s) =
    if all_digits (c ∷ s) && ltb (value 0 (c ∷ s)) bound then some (value 0 (c ∷ s)) else none

abbrev pub decimal_text : ℕ → Str
decimal_text n = map dec_digit (print 10 (suc n) n)

abbrev hex_digit_value : ℕ → Option ℕ
hex_digit_value c =
    if leb b'0' c && leb c b'9'
    then some (c - b'0')
    else if leb b'a' c && leb c b'f'
    then some (c - 87)
    else none

abbrev hex_value : ℕ → Str → Option ℕ
hex_value n [] = some n
hex_value n (c ∷ s) = do d ← hex_digit_value c; hex_value (n * 16 + d) s

abbrev read_hex : ℕ → Str → Option ℕ
read_hex bits s = do n ← hex_value 0 (strip_0x s); some (n % 2 ^ bits)

abbrev pub conversions : Casts
conversions = record {
  cast_u256 = read_decimal u256_mod;
  cast_u32 = read_decimal (2 ^ 32);
  text = decimal_text;
  hex_text = λ n. map hex_digit (print 16 (suc n) n);
  from_hex = read_hex;
}

print_none : (base n : ℕ) → print base 0 n ≡ []
unfolding print
print_none base n = refl

print_small : (base fuel n : ℕ) → n < base → print base (suc fuel) n ≡ n ∷ []
unfolding print
print_small base fuel n h = rw (lt→ltb n base h) refl

print_large :
    (base fuel n : ℕ)
    → base ≤ n
    → print base (suc fuel) n ≡ print base fuel (n / base) ++ (n % base) ∷ []
unfolding print
print_large base fuel n h = rw (not_ltb n base h) refl

length-print : (fuel k n : ℕ) → n < 16 ^ suc k → length (print 16 fuel n) ≤ suc k
length-print zero k n h = rw (print_none 16 n) (omega arith)
length-print (suc fuel) zero n h = rw (print_small 16 fuel n (omega arith)) (omega arith)
length-print (suc fuel) (suc k) n h = elim (dec_lt n 16) [
  | yes small ↦ rw (print_small 16 fuel n small) (omega arith)
  | no large ↦
      let p : 16 ^ suc (suc k) ≡ 16 ^ suc k * 16 = pow-suc 16 (suc k) in
      let ih = length-print fuel k (n / 16) (omega (arith, p)) in
      rw (print_large 16 fuel n (omega arith))
        (omega (arith, ih, length-append (print 16 fuel (n / 16)) ((n % 16) ∷ [])))
]

abbrev IsNumber : Str → Type 0
IsNumber [] = 1 ≤ 0
IsNumber (c ∷ s) = Digits (c ∷ s) × (c ≢ b'0')

IsNumber-append : (s : Str) (c : ℕ) → IsNumber s → b'0' ≤ c → c ≤ b'9' → IsNumber (s ++ c ∷ [])
IsNumber-append [] c h l u = absurd (omega arith)
IsNumber-append (d ∷ s) c ((hd, hs), ne) l u = ((hd, All-append _ s (c ∷ []) hs ((l, u), tt)), ne)

print-IsNumber : (fuel n : ℕ) → n < fuel → 0 < n → IsNumber (map dec_digit (print 10 fuel n))
print-IsNumber zero n h p = absurd (omega arith)
print-IsNumber (suc fuel) n h p = elim (dec_lt n 10) [
  | yes small ↦ rw (print_small 10 fuel n small) ((omega arith, tt), omega arith)
  | no large ↦
      rw
        (
          print_large 10 fuel n (omega arith),
          map-append dec_digit (print 10 fuel (n / 10)) ((n % 10) ∷ []),
        )
        (IsNumber-append _ (b'0' + n % 10)
          (print-IsNumber fuel (n / 10) (omega arith) (omega arith)) (omega arith) (omega arith))
]

value-print : (fuel n : ℕ) → n < fuel → value 0 (map dec_digit (print 10 fuel n)) ≡ n
value-print zero n h = absurd (omega arith)
value-print (suc fuel) n h = elim (dec_lt n 10) [
  | yes small ↦ rw (print_small 10 fuel n small) (omega arith)
  | no large ↦
      rw
        (
          print_large 10 fuel n (omega arith),
          map-append dec_digit (print 10 fuel (n / 10)) ((n % 10) ∷ []),
          value-append 0 (map dec_digit (print 10 fuel (n / 10))) ((b'0' + n % 10) ∷ []),
          value-print fuel (n / 10) (omega arith),
        )
        (omega arith)
]

IsNumber-IsCanonical : (s : Str) → IsNumber s → IsCanonical s
IsNumber-IsCanonical [] h = absurd (omega arith)
IsNumber-IsCanonical (c ∷ s) (h, ne) = number c s h ne

decimal_text-IsCanonical : (n : ℕ) → IsCanonical (decimal_text n)
decimal_text-IsCanonical zero =
    subst IsCanonical (sym (ap (map dec_digit) (print_small 10 0 0 (omega arith)))) zero_text
decimal_text-IsCanonical (suc n) =
    IsNumber-IsCanonical _ (print-IsNumber (suc (suc n)) (suc n) (omega arith) (omega arith))

all_digits-Digits : (s : Str) → Digits s → all_digits s ≡ true
all_digits-Digits [] h = refl
all_digits-Digits (c ∷ s) h = ground (arith, all_digits-Digits s)

read_decimal-canonical :
    (bound : ℕ) (s : Str)
    → IsCanonical s
    → value 0 s < bound
    → read_decimal bound s ≡ some (value 0 s)
read_decimal-canonical bound s zero_text h = ground arith
read_decimal-canonical bound s (number c s' d ne) h =
    rw (all_digits-Digits (c ∷ s') d, lt→ltb (value 0 (c ∷ s')) bound h) refl

read_decimal-text : (bound n : ℕ) → n < bound → read_decimal bound (decimal_text n) ≡ some n
read_decimal-text bound n h =
    let v = value-print (suc n) n (omega arith) in
    read_decimal-canonical bound (decimal_text n) (decimal_text-IsCanonical n) (rw v h) ∙ ap some v

read_decimal_bound : (bound : ℕ) (s : Str) (n : ℕ) → read_decimal bound s ≡ some n → n < bound
read_decimal_bound bound [] n h = cc
read_decimal_bound bound (c ∷ s) n h = ground arith

pub conversions-CastLaws : CastLaws conversions
conversions-CastLaws = record {
  cast_u256_bound = read_decimal_bound u256_mod;
  cast_u256-text = read_decimal-text u256_mod;
  cast_u32-text = read_decimal-text (2 ^ 32);
  text-IsCanonical = decimal_text-IsCanonical;
  length-hex_text =
      λ n h. rw (length-map hex_digit (print 16 (suc n) n)) (length-print (suc n) 63 n h);
}
