-- ===== src/Tests/Disks.antt =====
-- Databases as lists of pairs under their path, with writes that succeed.
use avme_wallet.Base.{
  if◌then◌else◌, Bool-cases, Str, codes, same, same→eq, same_refl, ◌≡◌, refl, sym, ap, ◌∙◌, subst,
  ◌≢◌, ◌⊎◌, inl, inr, false, List, [], ◌∷◌,
}
use avme_wallet.Database.{ok, failed, Found, found, missing, Leveldb}
use avme_wallet.Database.Laws.{remove, LeveldbLaws}

abbrev pub Disk : Type 0
Disk = Str → List (Str × Str)

abbrev find : Str → List (Str × Str) → Found
find key [] = missing (codes "NotFound: ")
find key ((k, v) ∷ pairs) = let rest = find key pairs in if same k key then found v else rest

abbrev pub update : Str → (List (Str × Str) → List (Str × Str)) → Disk → Disk
update p f d = λ q. if same p q then f (d q) else d q

abbrev pub disks : Leveldb
disks = record {
  Disk = Disk;
  create_directories = λ d p. d;
  remove_regular_file = λ d p. d;
  open_path = λ d p. (ok, d);
  get = λ d p k. find k (d p);
  put = λ d p k v. (ok, update p (λ pairs. (k, v) ∷ remove k pairs) d);
  delete = λ d p k. (ok, update p (remove k) d);
  entries = λ d p. d p;
  to_string = λ s. elim s [ ok ↦ codes "OK" | failed message ↦ message ];
}

same_not : (s t : Str) → s ≢ t → same s t ≡ false
same_not s t ne = elim (Bool-cases (same s t)) [ inl y ↦ absurd (ne (same→eq s t y)) | inr n ↦ n ]

find-remove :
    (k j : Str) (pairs : List (Str × Str)) → j ≢ k → find j (remove k pairs) ≡ find j pairs
find-remove k j [] ne = refl
find-remove k j ((i, v) ∷ pairs) ne = elim (Bool-cases (same i k)) [
  | inl y ↦
      let other : same i j ≡ false = same_not i j (λ x. ne (sym x ∙ same→eq i k y)) in
      rw (y, other) (find-remove k j pairs ne)
  | inr n ↦ rw (n, find-remove k j pairs ne) refl
]

update_same :
    (p : Str) (f : List (Str × Str) → List (Str × Str)) (d : Disk) → update p f d p ≡ f (d p)
update_same p f d = rw (same_refl p) refl

update_other :
    (p q : Str) (f : List (Str × Str) → List (Str × Str)) (d : Disk) → q ≢ p → update p f d q ≡ d q
update_other p q f d ne = rw (same_not p q (λ x. ne (sym x))) refl

get-put_other :
    (d : Disk) (p k v q j : Str)
    → (q ≢ p) ⊎ (j ≢ k)
    → find j (update p (λ pairs. (k, v) ∷ remove k pairs) d q) ≡ find j (d q)
get-put_other d p k v q j (inl ne) =
    ap (find j) (update_other p q (λ pairs. (k, v) ∷ remove k pairs) d ne)
get-put_other d p k v q j (inr ne) = elim (Bool-cases (same p q)) [
  | inl y ↦ rw (y, same_not k j (λ x. ne (sym x))) (find-remove k j (d q) ne)
  | inr n ↦ rw n refl
]

pub disks-LeveldbLaws : LeveldbLaws disks
disks-LeveldbLaws = record {
  get-put = λ d d' p k v e.
      subst (λ x. find k (x p) ≡ found v) (ap (λ r. r.1) e) (rw (same_refl p, same_refl k) refl);
  get-put_other = λ d d' s p k v q j e ne.
      subst (λ x. find j (x q) ≡ find j (d q)) (ap (λ r. r.1) e) (get-put_other d p k v q j ne);
  entries-put_other = λ d d' s p k v q e ne.
      subst (λ x. x q ≡ d q) (ap (λ r. r.1) e)
        (update_other p q (λ pairs. (k, v) ∷ remove k pairs) d ne);
  entries-put = λ d d' p k v e. (
    [],
    remove k (d p),
    subst (λ x. x p ≡ (k, v) ∷ remove k (d p)) (ap (λ r. r.1) e)
        (update_same p (λ pairs. (k, v) ∷ remove k pairs) d),
  );
  entries-delete = λ d d' p k e.
      subst (λ x. x p ≡ remove k (d p)) (ap (λ r. r.1) e) (update_same p (remove k) d);
  entries-delete_other = λ d d' s p k q e ne.
      subst (λ x. x q ≡ d q) (ap (λ r. r.1) e) (update_other p q (remove k) d ne);
}
