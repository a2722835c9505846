-- ===== src/Utils/Bytes/Padding.antt =====
-- What bytesToHex makes of a text.
use avme_wallet.Base.{
  ◌==◌, bind-eq-some, some_inj, length, length-append, length-replicate, All, Str, zeros, ℕ, zero,
  suc, ◌+◌, ◌-◌, ◌*◌, ◌/◌, ◌%◌, ◌≤◌, ◌<◌, ◌≡◌, refl, sym, ap, ◌∙◌, inl, inr, Bool, true, false,
  some, [], ◌∷◌, ◌++◌, map, append_assoc, append-nil, arith, dec_lt,
}
use avme_wallet.Utils.Casts.{Casts, u256_mod, CastLaws}
use avme_wallet.Utils.Case.{to_lower}
use avme_wallet.Utils.Hex.{uint_to_hex}
use avme_wallet.Utils.Hex.Words.{uint_to_hex-word}
use avme_wallet.Utils.Bytes.HexStrings.{encode}
use avme_wallet.Utils.Bytes.{hex_of_char, hex_of_chars, pad_to_word, bytes_to_hex}

not_whole : (n : ℕ) → ¬ (n % 64 < 1) → (n % 64 == 0) ≡ false
not_whole n h = ground arith

-- How many zeros are missing to a whole word.
abbrev pub missing : ℕ → ℕ
missing n = (64 - n % 64) % 64

-- Fuel of more rounds than zeros are missing is enough, and 64 rounds always are.
pub pad_to_word_lem :
    (fuel : ℕ) (s : Str)
    → missing (length s) < fuel
    → pad_to_word fuel s ≡ s ++ zeros (missing (length s))
unfolding pad_to_word
pad_to_word_lem zero s h = absurd (omega arith)
pad_to_word_lem (suc fuel) s h = elim (dec_lt (length s % 64) 1) [
  | yes e ↦
      let whole : length s % 64 ≡ 0 = omega arith in rw (whole, pad_to_word) (sym (append-nil s))
  | no e ↦
      let longer = length-append s (zeros 1) in
      let k : ℕ = missing (length (s ++ zeros 1)) in
      let one_less : missing (length s) ≡ suc k = omega (arith, longer) in
      rw (one_less, not_whole (length s) e, pad_to_word)
        (pad_to_word_lem fuel (s ++ zeros 1) (omega arith) ∙ append_assoc s (zeros 1) (zeros k))
]

-- The bytes that std::hex prints with two digits.
abbrev pub TwoDigits : Str → Type 0
TwoDigits = All (λ c. (16 ≤ c) × (c < 128))

hex_of_chars-encode : (s : Str) → TwoDigits s → hex_of_chars s ≡ encode s
unfolding hex_of_chars hex_of_char encode
hex_of_chars-encode [] h = refl
hex_of_chars-encode (c ∷ s) (b, h) = ground (arith, hex_of_chars-encode s h)

pad_64 : (s : Str) → pad_to_word 64 s ≡ s ++ zeros (missing (length s))
pad_64 s = pad_to_word_lem 64 s (omega arith)

length-pad : (s : Str) → length (pad_to_word 64 s) % 64 ≡ 0
length-pad s = rw (pad_64 s) (
    let k : ℕ = missing (length s) in
    omega (arith, length-append s (zeros k), length-replicate {A = ℕ} k b'0'))

-- Text of fewer than 2^256 bytes from 16 to 127 becomes two hex digits a byte, filled up with zeros on the right to
-- whole words, and with a word for the length in front unless `is_uint` is set.
bytes_to_hex_printable :
    (c : Casts)
    → CastLaws c
    → (s : Str) → TwoDigits s
    → length s < u256_mod
    → (bytes_to_hex c s true ≡ some (encode s ++ zeros (missing (length (encode s)))))
      × ((w : Str) × (uint_to_hex c (c.text (length s)) true ≡ some w)
          × (bytes_to_hex c s false
              ≡ some (w ++ encode s ++ zeros (missing (length (w ++ encode s))))))
unfolding bytes_to_hex
bytes_to_hex_printable c laws s h small =
    let n = length s in
    let padded = λ (m : ℕ). zeros (64 - length (c.hex_text m)) ++ map to_lower (c.hex_text m) in
    let e = laws.cast_u256-text n small in
    elim (uint_to_hex-word c laws (c.text n)) [
      | inl (m, e', word) ↦ (
        rw (hex_of_chars-encode s h, pad_64 (encode s)),
        (
          padded m,
          word,
          rw (word, hex_of_chars-encode s h) (ap some (pad_64 (padded m ++ encode s))),
        ),
      )
      | inr (bad, _) ↦ cc (bad, e)
    ]

-- Whatever is encoded, the result has whole words only.
length-bytes_to_hex :
    (c : Casts) (s : Str) (is_uint : Bool) {w : Str}
    → bytes_to_hex c s is_uint ≡ some w
    → length w % 64 ≡ 0
unfolding bytes_to_hex
length-bytes_to_hex c s true {w} e = rw (← some_inj e) (length-pad (hex_of_chars s))
length-bytes_to_hex c s false {w} e =
    let (p, _, done) = bind-eq-some (uint_to_hex c (c.text (length s)) true) _ e in
    rw (← some_inj done) (length-pad (p ++ hex_of_chars s))

-- The leading zero of a byte below 16 is lost: a byte from 1 to 7 before one from 16 to 127 has the
-- encoding of two other bytes.
bytes_to_hex_collision :
    (cs : Casts) (a b c : ℕ)
    → 1 ≤ a
    → a < 8
    → 1 ≤ b
    → b < 8
    → c < 16
    → bytes_to_hex cs (a ∷ (b * 16 + c) ∷ []) true ≡ bytes_to_hex cs ((a * 16 + b) ∷ c ∷ []) true
unfolding bytes_to_hex hex_of_chars hex_of_char
bytes_to_hex_collision cs a b c ha ha' hb hb' hc =
    let e₁ : (b * 16 + c) / 16 ≡ b = omega arith in
    let e₂ : (b * 16 + c) % 16 ≡ c = omega arith in
    let e₃ : (a * 16 + b) / 16 ≡ a = omega arith in
    let e₄ : (a * 16 + b) % 16 ≡ b = omega arith in ground (arith, e₁, e₂, e₃, e₄)
