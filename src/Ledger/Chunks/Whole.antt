-- ===== src/Ledger/Chunks/Whole.antt =====
-- The payloads of a transaction hold the path and the whole transaction, in order.
use avme_wallet.Base.{
  leb, length, drop, length-append, All, Str, ℕ, zero, suc, ◌+◌, ◌-◌, ◌≤◌, ◌<◌, ◌≡◌, refl, ap, ◌∙◌,
  ◌≢◌, ◌⊎◌, inl, inr, Bool, true, false, not, List, [], ◌∷◌, ◌++◌, arith, dec_lt,
}
use avme_wallet.Ledger.Chunks.Cut.{
  content, contents, front, IsSound, IsCut, after_second, the_cut, cut_payload_lem, the_cut-IsCut,
}
use avme_wallet.Ledger.Chunks.{Payload, cut_payload, cut_rounds, cut_transaction}

-- All payloads hold at most 150 bytes, and the first of them alone is marked as such.
abbrev pub IsLater : Payload → Type 0
IsLater p = (p.is_hid_first_message ≡ false) × (p.payload_size ≤ 150) × IsSound p

-- The `index` behind a round.
abbrev next_index : ℕ → Str → Str → ℕ
next_index index r left = index + (length r - length left)

cut_rounds_step :
    (fuel : ℕ) (header : Str) (path_size index c : ℕ) (rest : Str) (p : Payload) (left : Str)
    → cut_payload (not (leb 150 (index + path_size))) header (c ∷ rest) ≡ (p, left)
    → cut_rounds (suc fuel) header path_size index (c ∷ rest)
      ≡ p ∷ cut_rounds fuel header path_size (next_index index (c ∷ rest) left) left
unfolding cut_rounds
cut_rounds_step fuel header path_size index c rest p left e = rw (e, cut_rounds)

-- The round as a cut: what it makes and leaves.
pub cut_rounds-IsCut :
    (fuel : ℕ) (header : Str) (path_size index c : ℕ) (rest : Str) (b : Bool)
    → not (leb 150 (index + path_size)) ≡ b
    → length (front b header) ≤ 52
    → (p : Payload) × (left : Str) × IsCut b header (c ∷ rest) p left
      × (cut_rounds (suc fuel) header path_size index (c ∷ rest)
          ≡ p ∷ cut_rounds fuel header path_size (next_index index (c ∷ rest) left) left)
cut_rounds-IsCut fuel header path_size index c rest b e h =
    let p = the_cut b header c rest h in
    let left = drop 39 (after_second b header c rest h) in
    let step = ap (λ t. cut_payload t header (c ∷ rest)) e ∙ cut_payload_lem b header c rest h in
    (
      p,
      left,
      the_cut-IsCut b header c rest h,
      cut_rounds_step fuel header path_size index c rest p left step,
    )

cut_size :
    {b : Bool} {header r left : Str} {p : Payload} → IsCut b header r p left → p.payload_size ≤ 150
cut_size {b} {header} {r} {left} {p} cut =
    omega (arith, cut.sound.counted, cut.room, ap length cut.kept, length-append (content p) left)

not_first : (n : ℕ) → 150 ≤ n → not (leb 150 n) ≡ false
not_first n h = ground arith

IsLater-rounds :
    (fuel : ℕ) (header : Str) (path_size index : ℕ) (r : Str)
    → length r ≤ fuel
    → 150 ≤ index + path_size
    → (contents (cut_rounds fuel header path_size index r) ≡ r)
      × All IsLater (cut_rounds fuel header path_size index r)
IsLater-rounds fuel header path_size index [] h late = unfold cut_rounds in (refl, tt)
IsLater-rounds zero header path_size index (c ∷ rest) h late = absurd (omega arith)
IsLater-rounds (suc fuel) header path_size index (c ∷ rest) h late =
    let (p, left, cut, e) =
      cut_rounds-IsCut fuel header path_size index c rest false (not_first (index + path_size) late)
        (omega arith) in
    let shorter : length left ≤ fuel = omega (arith, cut.room) in
    let (whole, all) =
      IsLater-rounds fuel header path_size (next_index index (c ∷ rest) left) left shorter
        (omega arith) in
    rw (e, whole) (cut.kept, ((cut.flag, cut_size cut, cut.sound), all))

-- The rounds behind the first, if there are any.
rest_rounds :
    (fuel : ℕ) (header : Str) (path_size index : ℕ) (r : Str)
    → length r ≤ fuel
    → (length r ≡ 0) ⊎ (150 ≤ index + path_size)
    → (contents (cut_rounds fuel header path_size index r) ≡ r)
      × All IsLater (cut_rounds fuel header path_size index r)
rest_rounds fuel header path_size index [] h done = unfold cut_rounds in (refl, tt)
rest_rounds fuel header path_size index (c ∷ rest) h (inl done) = absurd (omega arith)
rest_rounds fuel header path_size index (c ∷ rest) h (inr late) =
    IsLater-rounds fuel header path_size index (c ∷ rest) h late

pub is_first_round : (n : ℕ) → n < 150 → not (leb 150 n) ≡ true
is_first_round n h = ground arith

late : (n m l : ℕ) → l ≡ n + suc m - 150 → (l ≡ 0) ⊎ (150 ≤ 0 + (suc m - l) + n)
late n m l e = elim (dec_lt 0 l) [ yes h ↦ inr (omega arith) | no h ↦ inl (omega arith) ]

-- A transaction of at least one byte, under a path of at most 52 bytes, is cut into payloads of at
-- most 150 bytes that hold the path and then the whole transaction; the first payload alone is marked
-- as the first.
pub cut_transaction_whole :
    (bip32 rlp : Str)
    → length bip32 ≤ 52
    → rlp ≢ []
    → (p : Payload) × (ps : List Payload) × (cut_transaction bip32 rlp ≡ p ∷ ps)
      × (p.is_hid_first_message ≡ true)
      × (p.payload_size ≤ 150)
      × IsSound p
      × All IsLater ps
      × (contents (p ∷ ps) ≡ bip32 ++ rlp)
cut_transaction_whole bip32 [] h ne = absurd (ne refl)
cut_transaction_whole bip32 (c ∷ rest) h ne =
    let n : ℕ = length bip32 in
    let (p, left, cut, e) =
      cut_rounds-IsCut (length rest) bip32 n 0 c rest true (is_first_round (0 + n) (omega arith))
        h in
    let sizes = length-append bip32 (c ∷ rest) in
    let left_size : length left ≡ n + suc (length rest) - 150 = omega (arith, cut.room, sizes) in
    let (whole, all) =
      rest_rounds (length rest) bip32 n (next_index 0 (c ∷ rest) left) left (omega arith)
        (late n (length rest) (length left) left_size) in
    (
      p,
      cut_rounds (length rest) bip32 n (next_index 0 (c ∷ rest) left) left,
      unfold cut_transaction in e,
      cut.flag,
      cut_size cut,
      cut.sound,
      all,
      rw whole cut.kept,
    )
