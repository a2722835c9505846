-- ===== src/Ledger/Path/RoundTrip.antt =====
-- A path that is written out is parsed to its indexes.
use avme_wallet.Base.{
  if◌then◌else◌, ◌>>=◌, length, All, length-map, Str, codes, Digits, ℕ, ◌+◌, ◌%◌, ◌^◌, ◌≤◌, ◌<◌,
  ◌≡◌, refl, ◌∙◌, Bool, true, false, ◌||◌, Option, some, List, [], ◌∷◌, ◌++◌, map, append_assoc,
  append-nil, arith,
}
use avme_wallet.Utils.Casts.{Casts, CastLaws}
use avme_wallet.Ledger.Path.{
  hardened, derivation_index, derivation_indexes, big_endians, parse_path,
}
use avme_wallet.Utils.Amounts.RoundTrip.{IsCanonical, zero_text, number, IsCanonical-Digits}
use avme_wallet.Utils.Amounts.{is_digit_byte}

pub record Step : Type 0 where
  pub index : ℕ
  pub is_hard : Bool

abbrev quote : Bool → Str
quote true = b'\'' ∷ []
quote false = []

pub step_text : Casts → Step → Str
step_text c st = c.text st.index ++ quote st.is_hard

-- The steps, with a slash between them.
pub path_text : Casts → Step → List Step → Str
path_text c st [] = step_text c st
path_text c st (next ∷ more) = step_text c st ++ b'/' ∷ path_text c next more

-- The number behind a step; the wallet's own paths stay below 2^31.
abbrev pub value : Step → ℕ
value st = if st.is_hard then st.index + hardened else st.index

abbrev harden : Bool → Step → Step
harden h st = record st { is_hard = st.is_hard || h }

harden_none : (st : Step) → value (harden false st) ≡ value st
harden_none st = ground arith

abbrev pub IsStep : Step → Type 0
IsStep st = st.index < hardened

-- What happens at the end of an index.
finish : Casts → Str → Bool → Str → Option (List ℕ)
finish c tmp h s = do
  index ← derivation_index c tmp h
  rest ← derivation_indexes c [] false s
  some (index ∷ rest)

module _ (c : Casts) where
  at_digit :
      (y z : ℕ) (tmp s : Str) (h : Bool)
      → (b'0' ≤ y) × (y ≤ b'9')
      → derivation_indexes c tmp h (y ∷ z ∷ s) ≡ derivation_indexes c (tmp ++ y ∷ []) h (z ∷ s)
  unfolding derivation_indexes is_digit_byte
  at_digit y z tmp s h d = ground arith

  at_last_digit :
      (y : ℕ) (tmp : Str) (h : Bool)
      → (b'0' ≤ y) × (y ≤ b'9')
      → derivation_indexes c tmp h (y ∷ []) ≡ finish c (tmp ++ y ∷ []) h []
  unfolding derivation_indexes is_digit_byte finish
  at_last_digit y tmp h d = ground arith

  at_quote :
      (z : ℕ) (tmp s : Str) (h : Bool)
      → derivation_indexes c tmp h (b'\'' ∷ z ∷ s) ≡ derivation_indexes c tmp true (z ∷ s)
  unfolding derivation_indexes is_digit_byte
  at_quote z tmp s h = refl

  at_last_quote :
      (tmp : Str) (h : Bool) → derivation_indexes c tmp h (b'\'' ∷ []) ≡ finish c tmp true []
  unfolding derivation_indexes is_digit_byte finish
  at_last_quote tmp h = refl

  at_slash : (tmp s : Str) (h : Bool) → derivation_indexes c tmp h (b'/' ∷ s) ≡ finish c tmp h s
  unfolding derivation_indexes is_digit_byte finish
  at_slash tmp s h = refl

  Digits-read :
      (ds tmp : Str) (h : Bool) (x : ℕ) (rest : Str)
      → Digits ds
      → derivation_indexes c tmp h (ds ++ x ∷ rest) ≡ derivation_indexes c (tmp ++ ds) h (x ∷ rest)
  Digits-read [] tmp h x rest d = rw (append-nil tmp)
  Digits-read (y ∷ []) tmp h x rest (dy, d) = at_digit y x tmp rest h dy
  Digits-read (y ∷ z ∷ ds) tmp h x rest (dy, d) =
      at_digit y z tmp (ds ++ x ∷ rest) h dy
      ∙ Digits-read (z ∷ ds) (tmp ++ y ∷ []) h x rest d
      ∙ rw (append_assoc tmp (y ∷ []) (z ∷ ds))

  last-Digits_read :
      (y : ℕ) (ds tmp : Str) (h : Bool)
      → Digits (y ∷ ds)
      → derivation_indexes c tmp h (y ∷ ds) ≡ finish c (tmp ++ y ∷ ds) h []
  last-Digits_read y [] tmp h (dy, d) = at_last_digit y tmp h dy
  last-Digits_read y (z ∷ ds) tmp h (dy, d) =
      at_digit y z tmp ds h dy
      ∙ last-Digits_read z ds (tmp ++ y ∷ []) h d
      ∙ rw (append_assoc tmp (y ∷ []) (z ∷ ds))

  module _ (laws : CastLaws c) where
    number-Digits : (n : ℕ) → Digits (c.text n)
    number-Digits n = IsCanonical-Digits (laws.text-IsCanonical n)

    -- A step's text before a slash.
    step_read :
        (n : ℕ) (hard h : Bool) (s : Str)
        → derivation_indexes c [] h (c.text n ++ quote hard ++ b'/' ∷ s)
          ≡ finish c (c.text n) (hard || h) s
    step_read n true h s = rw (append_assoc (c.text n) (quote true) (b'/' ∷ s)) (
        Digits-read (c.text n) [] h b'\'' (b'/' ∷ s) (number-Digits n)
        ∙ at_quote b'/' (c.text n) s h
        ∙ at_slash (c.text n) s true)
    step_read n false h s =
        rw (append-nil (c.text n))
          (Digits-read (c.text n) [] h b'/' s (number-Digits n) ∙ at_slash (c.text n) s h)

    last_digits :
        (t : Str) (h : Bool) → IsCanonical t → derivation_indexes c [] h t ≡ finish c t h []
    last_digits t h zero_text = last-Digits_read b'0' [] [] h (omega arith)
    last_digits t h (number x s d _) = last-Digits_read x s [] h d

    last_step_read :
        (n : ℕ) (hard h : Bool)
        → derivation_indexes c [] h (c.text n ++ quote hard) ≡ finish c (c.text n) (hard || h) []
    last_step_read n true h =
        Digits-read (c.text n) [] h b'\'' [] (number-Digits n) ∙ at_last_quote (c.text n) h
    last_step_read n false h =
        rw (append-nil (c.text n)) (last_digits (c.text n) h (laws.text-IsCanonical n))

    finish-step :
        (st : Step) (h : Bool) (s : Str) (ns : List ℕ)
        → IsStep st
        → derivation_indexes c [] false s ≡ some ns
        → finish c (c.text st.index) (st.is_hard || h) s ≡ some (value (harden h st) ∷ ns)
    unfolding finish derivation_index
    finish-step st h s ns small e =
        let e' = laws.cast_u32-text st.index (omega arith) in
        let m : (st.index + hardened) % 2 ^ 32 ≡ st.index + hardened = omega arith in rw (e', m, e)

    path_read :
        (st : Step) (more : List Step) (h : Bool)
        → IsStep st
        → All IsStep more
        → derivation_indexes c [] h (path_text c st more)
          ≡ some (value (harden h st) ∷ map value more)
    unfolding path_text step_text
    path_read st [] h small _ =
        last_step_read st.index st.is_hard h
        ∙ finish-step st h [] [] small (unfold derivation_indexes in refl)
    path_read st (next ∷ more) h small (small', smalls) =
        let ih = path_read next more false small' smalls in
        step_read st.index st.is_hard h (path_text c next more)
        ∙ finish-step st h (path_text c next more) (map value (next ∷ more)) small
            (rw (harden_none next) at ih)

pub parse_path-path_text :
    (c : Casts)
    → CastLaws c
    → (garbage : Bool) (st : Step) (more : List Step) → All IsStep (st ∷ more)
    → parse_path c garbage (codes "m/" ++ path_text c st more)
      ≡ some (
          (length (st ∷ more) % 256)
          ∷ big_endians (map value (record st { is_hard = st.is_hard || garbage } ∷ more)))
unfolding parse_path
parse_path-path_text c laws garbage st more (small, smalls) =
    rw (path_read c laws st more garbage small smalls, length-map value more)
