-- ===== src/Api/Removals.antt =====
-- What the loops that clean a request's text take away in a round, and how they end.
use avme_wallet.Base.{
  ◌==◌, if◌then◌else◌, Bool-cases, Option-cases, ◌>>=◌, bind-eq-some, some_inj, length,
  length-append, Str, ℕ, zero, suc, ◌≤◌, ◌≡◌, refl, sym, ap, subst, inl, inr, Bool, true, false,
  ◌&&◌, ◌||◌, Option, none, some, [], ◌∷◌, ◌++◌, arith,
}
use avme_wallet.Api.{erase_backslash, erase_quote_before, erase_quote_behind, erase_all}

abbrev pub is_removable : ℕ → Bool
is_removable b = b == b'\\' || b == b'"'

-- One backslash or quote is taken away.
abbrev pub Removes : Str → Str → Type 0
Removes s t =
    (front : Str) × (b : ℕ) × (rest : Str) × (s ≡ front ++ b ∷ rest)
    × (t ≡ front ++ rest)
    × (is_removable b ≡ true)

pub Removes-cons : (c : ℕ) (s t : Str) → Removes s t → Removes (c ∷ s) (c ∷ t)
Removes-cons c s t (front, b, rest, e, e', h) = (c ∷ front, b, rest, ap (◌∷◌ c) e, ap (◌∷◌ c) e', h)

-- A round in front of which a byte stays.
pub bind-Removes :
    (c : ℕ) (s t : Str) (o : Option Str)
    → ((u : Str) → o ≡ some u → Removes s u)
    → (o >>= λ rest. some (c ∷ rest)) ≡ some t
    → Removes (c ∷ s) t
bind-Removes c s t o ih e =
    let (u, found, e') = bind-eq-some o _ e in
    subst (Removes (c ∷ s)) (some_inj e') (Removes-cons c s u (ih u found))

pub and_both : (a b : Bool) → (a && b) ≡ true → (a ≡ true) × (b ≡ true)
and_both true b h = (refl, h)
and_both false b h = cc

pub erase_backslash-Removes : (s t : Str) → erase_backslash s ≡ some t → Removes s t
unfolding erase_backslash
erase_backslash-Removes [] t e = cc
erase_backslash-Removes (c ∷ s) t e = elim (Bool-cases (c == b'\\')) [
  | inl y ↦ ([], c, s, refl, sym (some_inj (rw (y, erase_backslash) at e)), ground arith)
  | inr n ↦
      bind-Removes c s t (erase_backslash s) (erase_backslash-Removes s)
        (rw (n, erase_backslash) at e)
]

pub erase_quote_before-Removes : (s t : Str) → erase_quote_before s ≡ some t → Removes s t
unfolding erase_quote_before
erase_quote_before-Removes [] t e = cc
erase_quote_before-Removes (c ∷ []) t e = cc
erase_quote_before-Removes (c ∷ d ∷ s) t e = elim (Bool-cases (c == b'"' && d == b'{')) [
  | inl y ↦
      let (quote, _) = and_both (c == b'"') (d == b'{') y in
      ([], c, d ∷ s, refl, sym (some_inj (rw (y, erase_quote_before) at e)), ground arith)
  | inr n ↦
      bind-Removes c (d ∷ s) t (erase_quote_before (d ∷ s)) (erase_quote_before-Removes (d ∷ s))
        (rw (n, erase_quote_before) at e)
]

pub erase_quote_behind-Removes : (s t : Str) → erase_quote_behind s ≡ some t → Removes s t
unfolding erase_quote_behind
erase_quote_behind-Removes [] t e = cc
erase_quote_behind-Removes (c ∷ []) t e = cc
erase_quote_behind-Removes (c ∷ d ∷ s) t e = elim (Bool-cases (c == b'}' && d == b'"')) [
  | inl y ↦
      let (_, quote) = and_both (c == b'}') (d == b'"') y in
      (c ∷ [], d, s, refl, sym (some_inj (rw (y, erase_quote_behind) at e)), ground arith)
  | inr n ↦
      bind-Removes c (d ∷ s) t (erase_quote_behind (d ∷ s)) (erase_quote_behind-Removes (d ∷ s))
        (rw (n, erase_quote_behind) at e)
]

pub Removes-length : (s t : Str) → Removes s t → length s ≡ suc (length t)
Removes-length s t (front, b, rest, e, e', h) =
    rw (e, e') (omega (arith, length-append front (b ∷ rest), length-append front rest))

-- With as much fuel as bytes a loop ends by its test.
pub erase_all_ends :
    (erase : Str → Option Str)
    → ((s t : Str) → erase s ≡ some t → Removes s t)
    → (fuel : ℕ) (s : Str) → length s ≤ fuel
    → erase (erase_all erase fuel s) ≡ none
unfolding erase_all
erase_all_ends erase removes zero s h = elim (Option-cases (erase s)) [
  | inl e ↦ e
  | inr (t, e) ↦ let size = Removes-length s t (removes s t e) in absurd (omega arith)
]
erase_all_ends erase removes (suc fuel) s h = elim (Option-cases (erase s)) [
  | inl e ↦ rw (e, erase_all) e
  | inr (t, e) ↦
      let size = Removes-length s t (removes s t e) in
      rw (e, erase_all) (erase_all_ends erase removes fuel t (omega arith))
]

-- What a round keeps, the loop keeps.
pub erase_all_keeps :
    (P : Str → Type 0) (erase : Str → Option Str)
    → ((s t : Str) → erase s ≡ some t → P s → P t)
    → (fuel : ℕ) (s : Str) → P s
    → P (erase_all erase fuel s)
unfolding erase_all
erase_all_keeps P erase keep zero s h = h
erase_all_keeps P erase keep (suc fuel) s h = elim (Option-cases (erase s)) [
  | inl e ↦ rw (e, erase_all) h
  | inr (t, e) ↦ rw (e, erase_all) (erase_all_keeps P erase keep fuel t (keep s t e h))
]

-- The bytes that are neither a backslash nor a quote.
abbrev pub others : Str → Str
others [] = []
others (c ∷ s) = let rest = others s in if is_removable c then rest else c ∷ rest

pub others-append : (s t : Str) → others (s ++ t) ≡ others s ++ others t
others-append [] t = refl
others-append (c ∷ s) t = ground (arith, others-append s t)

pub Removes-others : (s t : Str) → Removes s t → others t ≡ others s
Removes-others s t (front, b, rest, e, e', h) =
    rw (e, e', others-append front (b ∷ rest), others-append front rest, h) refl
