-- ===== src/Utils/Case/Checksum.antt =====
-- The checksum changes nothing but the case of letters.
use avme_wallet.Base.{
  ltb, if◌then◌else◌, Option-cases, bind-eq-some, some_inj, length, drop, All, Str, codes, strip_0x,
  ℕ, zero, suc, ◌≤◌, ◌≡◌, refl, ◌∙◌, ◌≢◌, inl, inr, true, none, some, [], ◌∷◌, ◌++◌, map, arith,
}
use avme_wallet.Utils.Case.{
  to_lower, to_upper, to_lower_case_address, nibble, checksum, to_camel_case_address, is_hex_digit,
}

to_lower_idem : (c : ℕ) → to_lower (to_lower c) ≡ to_lower c
unfolding to_lower
to_lower_idem c = ground arith

to_lower-to_upper : (c : ℕ) → to_lower (to_upper c) ≡ to_lower c
unfolding to_lower to_upper
to_lower-to_upper c = ground arith

-- Texts that `to_lower` leaves alone.
abbrev IsLower : Str → Type 0
IsLower s = map to_lower s ≡ s

to_lower-IsLower : (s : Str) → IsLower (map to_lower s)
to_lower-IsLower [] = refl
to_lower-IsLower (c ∷ s) = cc (to_lower_idem c, to_lower-IsLower s)

drop-map : (n : ℕ) (s : Str) → map to_lower (drop n s) ≡ drop n (map to_lower s)
drop-map zero s = refl
drop-map (suc n) [] = refl
drop-map (suc n) (c ∷ s) = drop-map n s

strip_0x-IsLower : (s : Str) → IsLower s → IsLower (strip_0x s)
unfolding strip_0x
strip_0x-IsLower s h = ground (arith, drop-map 2 s)

strip_0x-lower : (s : Str) → strip_0x (map to_lower (codes "0x" ++ s)) ≡ map to_lower s
unfolding strip_0x to_lower
strip_0x-lower s = refl

checksum-lower :
    (s hash : Str) {r : Str} → checksum s hash ≡ some r → map to_lower r ≡ map to_lower s
unfolding checksum
checksum-lower [] hash e = cc
checksum-lower (c ∷ s) [] e = cc
checksum-lower (c ∷ s) (h ∷ hash) {r} e =
    let (d, e₁, more) = bind-eq-some (nibble h) _ e in
    let (rest, e₂, done) = bind-eq-some (checksum s hash) _ more in
    ground (arith, done, checksum-lower s hash e₂, to_lower-to_upper c)

abbrev pub HexDigits : Str → Type 0
HexDigits = All (λ c. is_hex_digit c ≡ true)

nibble-ne-none : (c : ℕ) → is_hex_digit c ≡ true → nibble c ≢ none
unfolding is_hex_digit nibble
nibble-ne-none c h = ground arith

nibble-HexDigit : (c : ℕ) → is_hex_digit c ≡ true → (d : ℕ) × (nibble c ≡ some d)
nibble-HexDigit c h = elim (Option-cases (nibble c)) [
  | inl bad ↦ absurd (nibble-ne-none c h bad)
  | inr found ↦ found
]

-- With a hash of at least as many hex digits the checksum is defined.
checksum-total :
    (s hash : Str)
    → HexDigits hash
    → length s ≤ length hash
    → (r : Str) × (checksum s hash ≡ some r)
unfolding checksum
checksum-total [] hash h l = ([], refl)
checksum-total (c ∷ s) [] h l = absurd (omega arith)
checksum-total (c ∷ s) (d ∷ hash) h l =
    let (v, e) = nibble-HexDigit d h.0 in
    let (r, f) = checksum-total s hash h.1 (omega arith) in
    ((if ltb 7 v then to_upper c else c) ∷ r, rw (e, f))

-- With a hash of at least as many hex digits as the address has characters behind "0x", the
-- checksum address exists, and it is "0x" and those characters with nothing but their case changed.
pub to_camel_case_address-lower :
    (k : Str → Str) (a : Str)
    → HexDigits (k (strip_0x (to_lower_case_address a)))
    → length (strip_0x (to_lower_case_address a)) ≤ length (k (strip_0x (to_lower_case_address a)))
    → (r : Str) × (to_camel_case_address k a ≡ some (codes "0x" ++ r))
      × (to_lower_case_address r ≡ strip_0x (to_lower_case_address a))
unfolding to_camel_case_address to_lower_case_address
to_camel_case_address-lower k a h l =
    let bare : Str = strip_0x (map to_lower a) in
    let (r, e) = checksum-total bare (k bare) h l in
    (
      r,
      rw e,
      checksum-lower bare (k bare) e ∙ strip_0x-IsLower (map to_lower a) (to_lower-IsLower a),
    )

-- A checksum address is its own checksum address.
to_camel_case_address_idem :
    (k : Str → Str) (a : Str) {b : Str}
    → to_camel_case_address k a ≡ some b
    → to_camel_case_address k b ≡ some b
unfolding to_camel_case_address to_lower_case_address
to_camel_case_address_idem k a {b} e =
    let bare : Str = strip_0x (map to_lower a) in
    let (r, e₁, e₂) = bind-eq-some (checksum bare (k bare)) _ e in
    let same_bare : strip_0x (map to_lower (codes "0x" ++ r)) ≡ bare =
      strip_0x-lower r
      ∙ checksum-lower bare (k bare) e₁
      ∙ strip_0x-IsLower (map to_lower a) (to_lower-IsLower a) in
    rw (← some_inj e₂, same_bare, e₁)
