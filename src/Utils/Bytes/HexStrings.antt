-- ===== src/Utils/Bytes/HexStrings.antt =====
-- hexToString inverts the lower-case hexadecimal text of bytes, and accepts no other text.
use avme_wallet.Base.{
  bind-eq-some, some_inj, length, All, Str, ℕ, ◌+◌, ◌*◌, ◌/◌, ◌%◌, ◌<◌, ◌≡◌, refl, ◌↔◌, some, [],
  ◌∷◌, arith,
}
use avme_wallet.Utils.Bytes.{lookup_nibble, decode_pairs, hex_to_string, hex_char}

-- The text of bytes at two characters each.
unfoldable pub encode : Str → Str
encode [] = []
encode (c ∷ s) = hex_char (c / 16) ∷ hex_char (c % 16) ∷ encode s

abbrev pub IsByte : ℕ → Type 0
IsByte c = c < 256

lookup-hex_char : (n : ℕ) → n < 16 → lookup_nibble (hex_char n) ≡ some n
unfolding lookup_nibble hex_char
lookup-hex_char n h = ground arith

lookup_sound : (a : ℕ) {n : ℕ} → lookup_nibble a ≡ some n → (n < 16) × (a ≡ hex_char n)
unfolding lookup_nibble hex_char
lookup_sound a {n} e = ground arith

decode-encode : (s : Str) → All IsByte s → decode_pairs (encode s) ≡ some s
unfolding decode_pairs encode
decode-encode [] h = refl
decode-encode (c ∷ s) (b, h) =
    let byte : c / 16 * 16 + c % 16 ≡ c = omega arith in
    rw (
      lookup-hex_char (c / 16) (omega arith),
      lookup-hex_char (c % 16) (omega arith),
      decode-encode s h,
      byte,
    )

encode-decode : (t : Str) {s : Str} → decode_pairs t ≡ some s → All IsByte s × (encode s ≡ t)
unfolding decode_pairs encode
encode-decode [] e = rw (← some_inj e) (tt, refl)
encode-decode (a ∷ []) e = cc
encode-decode (a ∷ b ∷ t) {s} e =
    let (p, e₁, more) = bind-eq-some (lookup_nibble a) _ e in
    let (q, e₂, more') = bind-eq-some (lookup_nibble b) _ more in
    let (rest, e₃, done) = bind-eq-some (decode_pairs t) _ more' in
    let (p_small, a_eq) = lookup_sound a e₁ in
    let (q_small, b_eq) = lookup_sound b e₂ in
    let (bytes, t_eq) = encode-decode t e₃ in
    let high : (p * 16 + q) / 16 ≡ p = omega arith in
    let low : (p * 16 + q) % 16 ≡ q = omega arith in
    rw (← some_inj done, high, low, ← a_eq, ← b_eq, t_eq) ((omega arith, bytes), refl)

length-encode : (s : Str) → length (encode s) % 2 ≡ 0
unfolding encode
length-encode [] = refl
length-encode (c ∷ s) = omega (arith, length-encode s)

-- The lower-case hexadecimal text of bytes is decoded to those bytes, and a text that is decoded is
-- the lower-case hexadecimal text of what it is decoded to.
pub hex_to_string_iff : (t s : Str) → (hex_to_string t ≡ some s) ↔ (All IsByte s × (encode s ≡ t))
unfolding hex_to_string
hex_to_string_iff t s = (
  λ e. encode-decode t (ground (arith, e)),
  λ (h, e). rw (← e, length-encode s) (decode-encode s h),
)
