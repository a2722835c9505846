-- ===== src/Ledger/Chunks/Cut.antt =====
-- One round of the cutting loop, with its filling loops run.
use avme_wallet.Base.{
  if◌then◌else◌, length, take, drop, length-append, take-append-drop, length-take, length-drop, Str,
  ℕ, zero, suc, ◌+◌, ◌-◌, ◌≤◌, ◌<◌, ◌≡◌, refl, ◌⊎◌, inl, inr, Bool, List, [], ◌∷◌, ◌++◌,
  append_assoc, arith, dec_le,
}
use avme_wallet.Ledger.Chunks.{Payload, fill, cut_payload}

abbrev pub content : Payload → Str
content p = p.first_message ++ p.second_message ++ p.third_message

abbrev pub contents : List Payload → Str
contents [] = []
contents (p ∷ ps) = content p ++ contents ps

fill-rest : (n : ℕ) (rest : Str) → fill n [] rest ≡ (take n rest, drop n rest)
unfolding fill
fill-rest zero rest = refl
fill-rest (suc n) [] = refl
fill-rest (suc n) (c ∷ rest) = rw (fill-rest n rest)

fill-header :
    (n k : ℕ) (header : Str) (c : ℕ) (rest : Str)
    → length header + k ≡ n
    → fill n header (c ∷ rest) ≡ (header ++ take k (c ∷ rest), drop k (c ∷ rest))
unfolding fill
fill-header n k [] c rest h = let e : n ≡ k = omega arith in rw e (fill-rest k (c ∷ rest))
fill-header zero k (b ∷ header) c rest h = absurd (omega arith)
fill-header (suc n) k (b ∷ header) c rest h = rw (fill-header n k header c rest (omega arith))

-- What goes in front of a payload's share.
abbrev pub front : Bool → Str → Str
front is_first header = if is_first then header else []

-- What holds of a payload by itself: its size counts its bytes, it is not empty, and a message has
-- bytes only if the one before it is full.
pub record IsSound (p : Payload) : Type 0 where
  pub counted : p.payload_size ≡ length (content p)
  pub started : 0 < length p.first_message
  pub first_full :
      (length p.first_message ≡ 52) ⊎ ((p.second_message ≡ []) × (length p.first_message ≤ 52))
  pub second_full :
      (length p.second_message ≡ 59) ⊎ ((p.third_message ≡ []) × (length p.second_message ≤ 59))
  pub third_bound : length p.third_message ≤ 39

-- A payload that was cut from `r`, and what it leaves.
pub record IsCut (is_first : Bool) (header r : Str) (p : Payload) (left : Str) : Type 0 where
  pub kept : content p ++ left ≡ front is_first header ++ r
  pub flag : p.is_hid_first_message ≡ is_first
  pub room : length left ≡ length (front is_first header ++ r) - 150
  pub sound : IsSound p

full_take :
    (n : ℕ) (s : Str) (m : ℕ)
    → (length (take n s) ≡ n) ⊎ ((take m (drop n s) ≡ []) × (length (take n s) ≤ n))
full_take n s m = elim (dec_le n (length s)) [
  | yes h ↦ inl (omega (arith, length-take n s))
  | no h ↦
      inr (take-nil m (drop n s) (omega (arith, length-drop n s)), omega (arith, length-take n s))
]
  where
    take-nil : (m : ℕ) (t : Str) → length t ≡ 0 → take m t ≡ []
    take-nil zero t e = refl
    take-nil (suc m) [] e = refl
    take-nil (suc m) (c ∷ t) e = absurd (omega arith)

module _ (is_first : Bool) (header : Str) (c : ℕ) (rest : Str)
    (h : length (front is_first header) ≤ 52) where
  pub hd : Str
  hd = front is_first header

  pub share : ℕ
  share = 52 - length hd

  pub after_first : Str
  after_first = drop share (c ∷ rest)

  pub after_second : Str
  after_second = drop 59 after_first

  pub the_cut : Payload
  the_cut = record {
    payload_size =
        length (hd ++ take share (c ∷ rest))
        + length (take 59 after_first)
        + length (take 39 after_second);
    is_hid_first_message = is_first;
    first_message = hd ++ take share (c ∷ rest);
    second_message = take 59 after_first;
    third_message = take 39 after_second;
  }

  -- A round, with its loops run.
  pub cut_payload_lem : cut_payload is_first header (c ∷ rest) ≡ (the_cut, drop 39 after_second)
  unfolding cut_payload the_cut hd share after_first after_second
  cut_payload_lem = rw (
    fill-header 52 (52 - length (front is_first header)) (front is_first header) c rest
        (omega arith),
    fill-rest 59 (drop (52 - length (front is_first header)) (c ∷ rest)),
    fill-rest 39 (drop 59 (drop (52 - length (front is_first header)) (c ∷ rest))),
  )

  the_cut-kept : content the_cut ++ drop 39 after_second ≡ hd ++ c ∷ rest
  unfolding the_cut after_second after_first
  the_cut-kept =
      let first : Str = take share (c ∷ rest) in
      let a₁ : Str = drop share (c ∷ rest) in
      let a₂ : Str = drop 59 a₁ in
      rw (
        append_assoc (hd ++ first ++ take 59 a₁) (take 39 a₂) (drop 39 a₂),
        take-append-drop 39 a₂,
        append_assoc (hd ++ first) (take 59 a₁) a₂,
        take-append-drop 59 a₁,
        append_assoc hd first a₁,
        take-append-drop share (c ∷ rest),
      )

  pub the_cut-IsCut : IsCut is_first header (c ∷ rest) the_cut (drop 39 after_second)
  unfolding the_cut hd share
  the_cut-IsCut =
      let n : ℕ = length hd in
      let first : Str = take share (c ∷ rest) in
      let front_length = length-append hd first in
      record {
        kept = the_cut-kept;
        flag = refl;
        room =
            unfold after_second after_first in
            omega (
              arith,
              length-drop 39 (drop 59 (drop share (c ∷ rest))),
              length-drop 59 (drop share (c ∷ rest)),
              length-drop share (c ∷ rest),
              length-append hd (c ∷ rest),
            );
        sound = record {
          started = omega (arith, front_length, length-take share (c ∷ rest));
          counted = omega (
            arith,
            length-append (hd ++ first) (take 59 after_first),
            length-append (hd ++ first ++ take 59 after_first) (take 39 after_second),
          );
          first_full = elim (full_take share (c ∷ rest) 59) [
            | inl e ↦ inl (omega (arith, front_length))
            | inr (e, b) ↦ inr (unfold after_first in e, omega (arith, front_length))
          ];
          second_full = unfold after_second in full_take 59 after_first 39;
          third_bound = omega (arith, length-take 39 after_second);
        };
      }
