-- ===== src/Database/Operations.antt =====
-- What the six groups of functions of core/Database.cpp share, over the group's members.
use avme_wallet.Base.{
  if◌then◌else◌, ◌>>=◌, Str, same, Bool, true, false, ◌||◌, Option, none, some, List, [], ◌∷◌, ◌++◌,
  map,
}
use avme_wallet.Database.{
  Status, ok, failed, Found, found, missing, Leveldb, Table, Handle, Database, same_table,
}

module _ (L : Leveldb) where
  abbrev pub set_handle : Table → Handle → Database L → Database L
  set_handle t h d = record d { handles = λ u. if same_table t u then h else d.handles u }

  abbrev pub handle_if_open : Status → Str → Option Str
  handle_if_open ok path = some path
  handle_if_open (failed message) path = none

  abbrev pub is_ok : Status → Bool
  is_ok ok = true
  is_ok (failed message) = false

  -- leveldb::DB::Open at a path whose directories are made first.
  unfoldable pub open_at : Table → Str → Database L → Bool × Database L
  open_at t path d =
      let (status, disk) = L.open_path (L.create_directories d.disk path) path in
      let h = record (d.handles t) { db = handle_if_open status path; status = status } in
      (is_ok status, set_handle t h (record d { disk = disk }))

  unfoldable pub status_text : Table → Database L → Str
  status_text t d = L.to_string (Handle.status (d.handles t))

  unfoldable pub close : Table → Database L → Database L
  close t d = set_handle t (record (d.handles t) { db = none }) d

  abbrev pub is_some {ℓ} : {A : Type ℓ} → Option A → Bool
  is_some none = false
  is_some (some a) = true

  unfoldable pub is_open : Table → Database L → Bool
  is_open t d = is_some (Handle.db (d.handles t))

  abbrev pub has_key : Str → List (Str × Str) → Bool
  has_key key [] = false
  has_key key ((k, v) ∷ pairs) = same k key || has_key key pairs

  abbrev pub iterate : Table → Database L → Option (List (Str × Str))
  iterate t d = do path ← Handle.db (d.handles t); some (L.entries d.disk path)

  unfoldable pub key_exists : Table → Str → Database L → Option Bool
  key_exists t key d = do pairs ← iterate t d; some (has_key key pairs)

  abbrev pub read_handle : Handle → Found → Handle
  read_handle h (found value) = record h { status = ok; value = value }
  read_handle h (missing message) = record h { status = failed message }

  abbrev pub answer : Found → Str
  answer (found value) = value
  answer (missing message) = L.to_string (failed message)

  -- `Get` through the pointer of `source` into the status and value of `t`. The two are the same table,
  -- but for the history, whose `source` is token_db.
  unfoldable pub get_value : Table → Table → Str → Database L → Option (Str × Database L)
  get_value t source key d = do
    path ← Handle.db (d.handles source)
    let result = L.get d.disk path key
    some (answer result, set_handle t (read_handle (d.handles t) result) d)

  -- A write's status is kept and tested.
  abbrev pub written : Table → Status × L.Disk → Database L → Bool × Database L
  written t (status, disk) d = (
    is_ok status,
    set_handle t (record (d.handles t) { status = status }) (record d { disk = disk }),
  )

  unfoldable pub put_value : Table → Str → Str → Database L → Option (Bool × Database L)
  put_value t key value d = do
    path ← Handle.db (d.handles t)
    some (written t (L.put d.disk path key value) d)

  unfoldable pub delete_value : Table → Str → Database L → Option (Bool × Database L)
  delete_value t key d = do
    path ← Handle.db (d.handles t)
    some (written t (L.delete d.disk path key) d)

  unfoldable pub all_keys : Table → Database L → Option (List Str)
  all_keys t d = do pairs ← iterate t d; some (map (λ p. p.0) pairs)

  unfoldable pub all_values : Table → Database L → Option (List Str)
  all_values t d = do pairs ← iterate t d; some (map (λ p. p.1) pairs)

  -- `emplace` keeps the value that a key has.
  abbrev pub emplace : Str × Str → List (Str × Str) → List (Str × Str)
  emplace (k, v) m = if has_key k m then m else m ++ (k, v) ∷ []

  abbrev pub to_map : List (Str × Str) → List (Str × Str) → List (Str × Str)
  to_map m [] = m
  to_map m (p ∷ pairs) = to_map (emplace p m) pairs

  unfoldable pub all_pairs : Table → Database L → Option (List (Str × Str))
  all_pairs t d = do pairs ← iterate t d; some (to_map [] pairs)

  abbrev pub delete_each : Str → List (Str × Str) → L.Disk → L.Disk
  delete_each path [] disk = disk
  delete_each path ((k, v) ∷ pairs) disk = delete_each path pairs ((L.delete disk path k).1)

  -- The iterator walks through the state it was made in; the statuses are dropped.
  unfoldable pub delete_all_keys : Table → Database L → Option (Database L)
  delete_all_keys t d = do
    path ← Handle.db (d.handles t)
    some (record d { disk = delete_each path (L.entries d.disk path) d.disk })
