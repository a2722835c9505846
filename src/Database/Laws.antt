-- ===== src/Database/Laws.antt =====
-- What LevelDB documents of its databases.
use avme_wallet.Base.{if◌then◌else◌, Str, same, ◌≡◌, ◌≢◌, ◌⊎◌, List, [], ◌∷◌, ◌++◌}
use avme_wallet.Database.{Status, ok, found, Leveldb}

-- The pairs without those of a key.
abbrev pub remove : Str → List (Str × Str) → List (Str × Str)
remove key [] = []
remove key ((k, v) ∷ pairs) =
    let rest = remove key pairs in if same k key then rest else (k, v) ∷ rest

pub record LeveldbLaws (L : Leveldb) : Type 0 where
  pub get-put : (d d' : L.Disk) (p k v : Str) → L.put d p k v ≡ (ok, d') → L.get d' p k ≡ found v
  pub get-put_other :
      (d d' : L.Disk) (s : Status) (p k v q j : Str)
      → L.put d p k v ≡ (s, d')
      → (q ≢ p) ⊎ (j ≢ k)
      → L.get d' q j ≡ L.get d q j
  pub entries-put_other :
      (d d' : L.Disk) (s : Status) (p k v q : Str)
      → L.put d p k v ≡ (s, d')
      → q ≢ p
      → L.entries d' q ≡ L.entries d q
  pub entries-put :
      (d d' : L.Disk) (p k v : Str)
      → L.put d p k v ≡ (ok, d')
      → (front rest : List (Str × Str)) × (L.entries d' p ≡ front ++ (k, v) ∷ rest)
  pub entries-delete :
      (d d' : L.Disk) (p k : Str)
      → L.delete d p k ≡ (ok, d')
      → L.entries d' p ≡ remove k (L.entries d p)
  pub entries-delete_other :
      (d d' : L.Disk) (s : Status) (p k q : Str)
      → L.delete d p k ≡ (s, d')
      → q ≢ p
      → L.entries d' q ≡ L.entries d q
