-- ===== src/Database/Storage.antt =====
-- Which database a read goes to, and what it finds behind a write.
use avme_wallet.Base.{some_inj, Str, ◌≡◌, refl, sym, ap, ◌∙◌, subst, ◌≢◌, inl, true, some}
use avme_wallet.Database.{
  Status, ok, failed, Found, Leveldb, Table, token_db, history_db, ledger_db, app_db, address_db,
  config_db, Handle, Database, same_table,
}
use avme_wallet.Database.Laws.{LeveldbLaws}
use avme_wallet.Database.Operations.{set_handle, read_handle, answer, get_value, written, put_value}
use avme_wallet.Database.Token as Token
use avme_wallet.Database.History as History

abbrev pub OpenAt : (L : Leveldb) → Table → Str → Database L → Type 0
OpenAt L t path d = Handle.db (d.handles t) ≡ some path

pub same_table_refl : (t : Table) → same_table t t ≡ true
same_table_refl token_db = refl
same_table_refl history_db = refl
same_table_refl ledger_db = refl
same_table_refl app_db = refl
same_table_refl address_db = refl
same_table_refl config_db = refl

-- A write that reports success, and the state behind it.
module _ (L : Leveldb) where
  pub put_value_step :
      (t : Table) (path key value : Str) (d : Database L)
      → OpenAt L t path d
      → put_value L t key value d ≡ some (written L t (L.put d.disk path key value) d)
  unfolding put_value
  put_value_step t path key value d at = rw at refl

  pub get_value_step :
      (t source : Table) (path key : Str) (d : Database L) (r : Found)
      → OpenAt L source path d
      → L.get d.disk path key ≡ r
      → get_value L t source key d
        ≡ some (answer L r, set_handle L t (read_handle L (d.handles t) r) d)
  unfolding get_value
  get_value_step t source path key d r at e = rw (at, e) refl

  pub written-OpenAt :
      (t : Table) (path : Str) (r : Status × L.Disk) (d : Database L)
      → OpenAt L t path d
      → OpenAt L t path ((written L t r d).1)
  written-OpenAt t path (s, disk) d at = rw (same_table_refl t) at

  -- A write that is reported as done was done on the disk, and leaves the pointers.
  pub written-true :
      (t : Table) (r : Status × L.Disk) (d d' : Database L)
      → written L t r d ≡ (true, d')
      → (r ≡ (ok, d'.disk)) × (d' ≡ (written L t r d).1)
  written-true t (ok, disk) d d' e = (ap (λ x. (ok, Database.disk x.1)) e, sym (ap (λ x. x.1) e))
  written-true t (failed message, disk) d d' e = cc

  pub put_value-true :
      (t : Table) (path key value : Str) (d d' : Database L)
      → OpenAt L t path d
      → put_value L t key value d ≡ some (true, d')
      → (L.put d.disk path key value ≡ (ok, d'.disk))
        × (d' ≡ (written L t (L.put d.disk path key value) d).1)
  put_value-true t path key value d d' at e =
      written-true t (L.put d.disk path key value) d d'
        (some_inj (sym (put_value_step t path key value d at) ∙ e))

-- The history's read goes to the token database: with the two databases open at different paths, a
-- value that was written into the history is not what is read there, but what the token database has
-- under that key, before the write and after it.
pub get_history_value_reads_tokens :
    (L : Leveldb)
    → LeveldbLaws L
    → (token_path history_path key value : Str) (d d' : Database L) → OpenAt L token_db token_path d
    → OpenAt L history_db history_path d
    → token_path ≢ history_path
    → History.put_value L key value d ≡ some (true, d')
    → (s : Str) × (d₁ d₂ d₃ : Database L) × (History.get_value L key d' ≡ some (s, d₁))
      × (History.get_value L key d ≡ some (s, d₂))
      × (Token.get_value L key d ≡ some (s, d₃))
unfolding History.put_value History.get_value Token.get_value
get_history_value_reads_tokens L laws token_path history_path key value d d' at_t at_h ne e =
    let (done, next) = put_value-true L history_db history_path key value d d' at_h e in
    let at' : OpenAt L token_db token_path d' =
      subst (OpenAt L token_db token_path) (sym next) at_t in
    let same_value =
      laws.get-put_other d.disk d'.disk ok history_path key value token_path key done (inl ne) in
    let r : Found = L.get d.disk token_path key in
    (
      answer L r,
      _,
      _,
      _,
      get_value_step L history_db token_db token_path key d' r at' same_value,
      get_value_step L history_db token_db token_path key d r at_t refl,
      get_value_step L token_db token_db token_path key d r at_t refl,
    )
