-- ===== src/Database/Clearing.antt =====
-- Keys that a database has, and databases that are emptied.
use avme_wallet.Base.{
  Bool-cases, some_inj, All, Str, same, same→eq, same_refl, ◌≡◌, refl, sym, ap, ◌∙◌, ◌↔◌, inl, inr,
  Bool, true, false, ◌||◌, some, List, [], ◌∷◌, ◌++◌, map,
}
use avme_wallet.Database.{ok, Leveldb, Table, Database}
use avme_wallet.Database.Laws.{remove, LeveldbLaws}
use avme_wallet.Database.Operations.{has_key, key_exists, all_keys, delete_each, delete_all_keys}
use avme_wallet.Database.Storage.{OpenAt}

or_later : (a b : Bool) → b ≡ true → (a || b) ≡ true
or_later true b h = refl
or_later false b h = h

or_true : (a b : Bool) → a ≡ true → (a || b) ≡ true
or_true true b h = refl
or_true false b h = cc

module _ (L : Leveldb) (laws : LeveldbLaws L) (path : Str) where
  abbrev keys_of : L.Disk → List Str
  keys_of disk = map (λ p. p.0) (L.entries disk path)

  -- Removing the keys of a list from pairs whose keys stand in it leaves none.
  abbrev remove_each : List (Str × Str) → List (Str × Str) → List (Str × Str)
  remove_each [] pairs = pairs
  remove_each ((k, v) ∷ ks) pairs = remove_each ks (remove k pairs)

  remove_nothing : (ks : List (Str × Str)) → remove_each ks [] ≡ []
  remove_nothing [] = refl
  remove_nothing ((k, v) ∷ ks) = remove_nothing ks

  later : (j k : Str) (b : Bool) → same k j ≡ false → (same j k || b) ≡ true → b ≡ true
  later j k b e h = elim (Bool-cases (same j k)) [
    | inl y ↦
        let bad : true ≡ false = sym (same_refl j) ∙ ap (λ x. same x j) (same→eq j k y) ∙ e in cc
    | inr n ↦ rw (← h, n) refl
  ]

  -- The pair in front does not matter once its key is removed.
  remove_each-cons :
      (ks : List (Str × Str)) (k v : Str) (pairs : List (Str × Str))
      → has_key L k ks ≡ true
      → remove_each ks ((k, v) ∷ pairs) ≡ remove_each ks pairs
  remove_each-cons [] k v pairs h = cc
  remove_each-cons ((j, w) ∷ ks) k v pairs h = elim (Bool-cases (same k j)) [
    | inl e ↦ rw e refl
    | inr e ↦ rw (e) (remove_each-cons ks k v (remove j pairs) (later j k (has_key L k ks) e h))
  ]

  entries-delete_each :
      ((d : L.Disk) (k : Str) → (d' : L.Disk) × (L.delete d path k ≡ (ok, d')))
      → (ks : List (Str × Str)) (disk : L.Disk)
      → L.entries (delete_each L path ks disk) path ≡ remove_each ks (L.entries disk path)
  entries-delete_each works [] disk = refl
  entries-delete_each works ((k, v) ∷ ks) disk =
      let (next, done) = works disk k in
      let removed = laws.entries-delete disk next path k done in
      let same_disk : (L.delete disk path k).1 ≡ next = ap (λ r. r.1) done in
      ap (λ x. L.entries (delete_each L path ks x) path) same_disk
      ∙ entries-delete_each works ks next
      ∙ ap (remove_each ks) removed

  Keyed : List (Str × Str) → List (Str × Str) → Type 0
  Keyed ks = All (λ p. has_key L p.0 ks ≡ true)

  remove_each-Keyed : (ks pairs : List (Str × Str)) → Keyed ks pairs → remove_each ks pairs ≡ []
  unfolding Keyed
  remove_each-Keyed ks [] h = remove_nothing ks
  remove_each-Keyed ks ((k, v) ∷ pairs) (here, h) =
      remove_each-cons ks k v pairs here ∙ remove_each-Keyed ks pairs h

  Keyed-cons : (p : Str × Str) (ks pairs : List (Str × Str)) → Keyed ks pairs → Keyed (p ∷ ks) pairs
  unfolding Keyed
  Keyed-cons p ks [] h = tt
  Keyed-cons p ks (q ∷ pairs) (here, h) =
      (or_later (same p.0 q.0) (has_key L q.0 ks) here, Keyed-cons p ks pairs h)

  Keyed-refl : (pairs : List (Str × Str)) → Keyed pairs pairs
  unfolding Keyed
  Keyed-refl [] = tt
  Keyed-refl ((k, v) ∷ pairs) =
      (rw (same_refl k) refl, Keyed-cons (k, v) pairs pairs (Keyed-refl pairs))

-- Deleting all keys of an open database whose deletions succeed leaves it with none.
pub delete_all_keys-empty :
    (L : Leveldb)
    → LeveldbLaws L
    → (t : Table) (path : Str) (d : Database L) → OpenAt L t path d
    → ((disk : L.Disk) (k : Str) → (next : L.Disk) × (L.delete disk path k ≡ (ok, next)))
    → (d' : Database L) × (delete_all_keys L t d ≡ some d') × (all_keys L t d' ≡ some [])
unfolding delete_all_keys all_keys
delete_all_keys-empty L laws t path d at works =
    let pairs = L.entries d.disk path in
    let empty =
      entries-delete_each L laws path works pairs d.disk
      ∙ remove_each-Keyed L laws path pairs pairs (Keyed-refl L laws path pairs) in
    (record d { disk = delete_each L path pairs d.disk }, rw at refl, rw (at, empty) refl)

has_key-split :
    (L : Leveldb) (key : Str) (pairs : List (Str × Str))
    → has_key L key pairs ≡ true
    → (front rest : List Str) × (map (λ p. p.0) pairs ≡ front ++ key ∷ rest)
has_key-split L key [] h = cc
has_key-split L key ((k, v) ∷ pairs) h = elim (Bool-cases (same k key)) [
  | inl e ↦ ([], map (λ p. p.0) pairs, ap (λ x. x ∷ map (λ p. p.0) pairs) (same→eq k key e))
  | inr e ↦
      let found : has_key L key pairs ≡ true = rw (← h, e) refl in
      let (front, rest, split) = has_key-split L key pairs found in
      (k ∷ front, rest, ap (◌∷◌ k) split)
]

split-has_key :
    (L : Leveldb) (key : Str) (pairs : List (Str × Str)) (front rest : List Str)
    → map (λ p. p.0) pairs ≡ front ++ key ∷ rest
    → has_key L key pairs ≡ true
split-has_key L key [] [] rest e = cc
split-has_key L key [] (x ∷ front) rest e = cc
split-has_key L key ((k, v) ∷ pairs) [] rest e =
    let eq : k ≡ key = cc in or_true (same k key) (has_key L key pairs) (rw eq (same_refl key))
split-has_key L key ((k, v) ∷ pairs) (x ∷ front) rest e =
    or_later (same k key) (has_key L key pairs) (split-has_key L key pairs front rest cc)

-- A key is found exactly if it stands among the keys that are listed.
key_exists_iff :
    (L : Leveldb) (t : Table) (path key : Str) (d : Database L)
    → OpenAt L t path d
    → (keys : List Str) × (all_keys L t d ≡ some keys)
      × ((key_exists L t key d ≡ some true)
          ↔ ((front rest : List Str) × (keys ≡ front ++ key ∷ rest)))
unfolding key_exists all_keys
key_exists_iff L t path key d at =
    let pairs = L.entries d.disk path in
    (
      map (λ p. p.0) pairs,
      rw at refl,
      rw at (
        λ e. has_key-split L key pairs (some_inj e),
        λ (front, rest, e). ap some (split-has_key L key pairs front rest e),
      ),
    )
