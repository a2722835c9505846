-- ===== src/Sites/Grants.antt =====
-- What the user's answer about a site leaves in the list and in the settings.
use avme_wallet.Base.{
  Bool-cases, bind-eq-some, some_inj, Str, codes, ◌≡◌, refl, sym, ap, ◌∙◌, subst, ◌⊎◌, inl, inr,
  Bool, false, some,
}
use avme_wallet.Database.{ok, Found, found, missing, Leveldb, config_db, Database}
use avme_wallet.Database.Laws.{LeveldbLaws}
use avme_wallet.Database.Operations.{set_handle, read_handle, answer, written}
use avme_wallet.Database.Storage.{OpenAt, put_value_step, get_value_step, written-OpenAt}
use avme_wallet.Utils.Json.Tree.{boolean, object, Fields, at_field, assign}
use avme_wallet.Wallet.Stores.{get_config_value, set_config_value}
use avme_wallet.Database.Config as Config
use avme_wallet.Sites.{
  System, contains_text, permissions_key, stored_permissions, loaded_list, load_permission_list,
  stored_list, store_and_load, add_to_permission_list,
}
use avme_wallet.Sites.Stored.{NodeLaws, assign-object, stored_permissions-dump}
use avme_wallet.Sites.Handler.{permission_of}
use avme_wallet.Api.{Node}

Found-cases :
    (r : Found) → ((value : Str) × (r ≡ found value)) ⊎ ((message : Str) × (r ≡ missing message))
Found-cases (found value) = inl (value, refl)
Found-cases (missing message) = inr (message, refl)

module _ (L : Leveldb) where
  -- A read leaves the disk and the pointers.
  read_at-OpenAt :
      (path key : Str) (d : Database L)
      → OpenAt L config_db path d
      → OpenAt L config_db path
          (set_handle L config_db (read_handle L (d.handles config_db) (L.get d.disk path key)) d)
  read_at-OpenAt path key d at = elim (Found-cases (L.get d.disk path key)) [
    | inl (value, e) ↦ rw e at
    | inr (message, e) ↦ rw e at
  ]

  pub config_read :
      (path value : Str) (d d' : Database L)
      → OpenAt L config_db path d
      → get_config_value L permissions_key d ≡ some (value, d')
      → (answer L (L.get d.disk path permissions_key) ≡ value)
        × (d'.disk ≡ d.disk)
        × OpenAt L config_db path d'
  unfolding get_config_value Config.get_value
  config_read path value d d' at e =
      let r : Found = L.get d.disk path permissions_key in
      let e' =
        some_inj
          (sym (get_value_step L config_db config_db path permissions_key d r at refl) ∙ e) in
      (
        ap (λ x. x.0) e',
        ap (λ x. Database.disk (x.1)) (sym e'),
        subst (OpenAt L config_db path) (ap (λ x. x.1) e')
            (read_at-OpenAt path permissions_key d at),
      )

  -- Writes of the list into the settings report success.
  abbrev pub WritesSucceed : Str → Type 0
  WritesSucceed path =
      (disk : L.Disk) (value : Str)
      → (disk' : L.Disk) × (L.put disk path permissions_key value ≡ (ok, disk'))

  pub config_write :
      LeveldbLaws L
      → (path value : Str) (b : Bool) (d d' : Database L) → OpenAt L config_db path d
      → WritesSucceed path
      → set_config_value L permissions_key value d ≡ some (b, d')
      → (answer L (L.get d'.disk path permissions_key) ≡ value) × OpenAt L config_db path d'
  unfolding set_config_value Config.put_value
  config_write laws path value b d d' at succeed e =
      let (disk', did) = succeed d.disk value in
      let e' : written L config_db (ok, disk') d ≡ (b, d') =
        ap (λ r. written L config_db r d) (sym did)
        ∙ some_inj (sym (put_value_step L config_db path permissions_key value d at) ∙ e) in
      let disk_same : disk' ≡ d'.disk = ap (λ x. Database.disk (x.1)) e' in
      (
        ap (λ disk. answer L (L.get disk path permissions_key)) (sym disk_same)
            ∙ ap (answer L) (laws.get-put d.disk disk' path permissions_key value did),
        subst (OpenAt L config_db path) (ap (λ x. x.1) e')
            (written-OpenAt L config_db path (ok, disk') d at),
      )

  -- The list as it is loaded from a text.
  loaded_list-permission_of :
      (node : Node)
      → NodeLaws node
      → (website value : Str) (allow : Bool) (fs : Fields) (sys sys' : System L)
      → node.dump (object fs) ≡ some value
      → at_field website fs ≡ boolean allow
      → contains_text (codes "NotFound") value ≡ false
      → loaded_list L node value sys ≡ some sys'
      → permission_of website sys'.permission_list false ≡ allow
  unfolding loaded_list
  loaded_list-permission_of node node_laws website value allow fs sys sys' e_dump member_e plain e =
      let (stored, e_parse, e1) =
        bind-eq-some (node.parse value) _ (rw (plain, loaded_list) at e) in
      let (list, e_list, e2) = bind-eq-some (stored_permissions stored) _ e1 in
      ap (λ s. permission_of website (System.permission_list s) false) (sym (some_inj e2))
      ∙ stored_permissions-dump node node_laws website value allow fs stored list member_e e_dump
          e_parse e_list

  -- What the settings have under the key of the list.
  abbrev pub Stores : Str → Str → Database L → Type 0
  Stores path value d =
      (answer L (L.get d.disk path permissions_key) ≡ value) × OpenAt L config_db path d

  pub config_read-Stores :
      (path value stored : Str) (d d' : Database L)
      → Stores path stored d
      → get_config_value L permissions_key d ≡ some (value, d')
      → (value ≡ stored) × Stores path stored d'
  config_read-Stores path value stored d d' (has, at) e =
      let (read, disk, at') = config_read path value d d' at e in
      (sym read ∙ has, (ap (λ x. answer L (L.get x path permissions_key)) disk ∙ has, at'))

  loaded_list-db :
      (node : Node) (value : Str) (sys sys' : System L)
      → loaded_list L node value sys ≡ some sys'
      → sys'.db ≡ sys.db
  unfolding loaded_list
  loaded_list-db node value sys sys' e =
      elim (Bool-cases (contains_text (codes "NotFound") value)) [
        | inl y ↦ ap System.db (sym (some_inj (rw (y, loaded_list) at e)))
        | inr n ↦
            let (stored, _, e1) = bind-eq-some (node.parse value) _ (rw (n, loaded_list) at e) in
            let (list, _, e2) = bind-eq-some (stored_permissions stored) _ e1 in
            ap System.db (sym (some_inj e2))
      ]

  load-permission_of :
      (node : Node)
      → NodeLaws node
      → (path website value : Str) (allow : Bool) (fs : Fields) (sys sys' : System L)
      → Stores path value sys.db
      → node.dump (object fs) ≡ some value
      → at_field website fs ≡ boolean allow
      → contains_text (codes "NotFound") value ≡ false
      → load_permission_list L node sys ≡ some sys'
      → permission_of website sys'.permission_list false ≡ allow
  unfolding load_permission_list
  load-permission_of node node_laws path website value allow fs sys sys' stores e_dump member_e
        plain e =
      let ((read, db), e_get, e1) = bind-eq-some (get_config_value L permissions_key sys.db) _ e in
      let (same_text, _) = config_read-Stores path read value sys.db db stores e_get in
      loaded_list-permission_of node node_laws website value allow fs (record sys { db = db }) sys'
        e_dump member_e plain
        (subst (λ v. loaded_list L node v (record sys { db = db }) ≡ some sys') same_text e1)

  pub load-Stores :
      (node : Node) (path value : Str) (sys sys' : System L)
      → Stores path value sys.db
      → load_permission_list L node sys ≡ some sys'
      → Stores path value sys'.db
  unfolding load_permission_list
  load-Stores node path value sys sys' stores e =
      let ((read, db), e_get, e1) = bind-eq-some (get_config_value L permissions_key sys.db) _ e in
      let (_, stores') = config_read-Stores path read value sys.db db stores e_get in
      subst (Stores path value) (sym (loaded_list-db node read (record sys { db = db }) sys' e1))
        stores'

  -- The user's answer about a site is in the list behind addToPermissionList, and it is there again
  -- whenever the list is loaded from those settings: with the settings open, writes that succeed, and
  -- a stored text in which "NotFound" does not stand.
  pub add_to_permission_list-permission_of :
      LeveldbLaws L
      → (node : Node) → NodeLaws node
      → (path website value : Str) (allow : Bool) (sys sys' later loaded : System L)
        (db : Database L)
      → OpenAt L config_db path sys.db
      → WritesSucceed path
      → add_to_permission_list L node website allow sys ≡ some sys'
      → get_config_value L permissions_key sys'.db ≡ some (value, db)
      → contains_text (codes "NotFound") value ≡ false
      → later.db ≡ sys'.db
      → load_permission_list L node later ≡ some loaded
      → (permission_of website sys'.permission_list false ≡ allow)
        × (permission_of website loaded.permission_list false ≡ allow)
  unfolding add_to_permission_list store_and_load
  add_to_permission_list-permission_of laws node node_laws path website value allow sys sys' later
        loaded db at succeed e e_value plain same_db e_later =
      let ((old, db1), e_get, e1) = bind-eq-some (get_config_value L permissions_key sys.db) _ e in
      let (_, _, at1) = config_read path old sys.db db1 at e_get in
      let (stored, _, e2) = bind-eq-some (stored_list L node old) _ e1 in
      let (updated, e_assign, e3) = bind-eq-some (assign website (boolean allow) stored) _ e2 in
      let (dumped, e_dump, e4) = bind-eq-some (node.dump updated) _ e3 in
      let ((b, db2), e_put, e5) =
        bind-eq-some (set_config_value L permissions_key dumped db1) _ e4 in
      let (fs, is_object, member_e) =
        assign-object website (boolean allow) stored updated e_assign in
      let stores = config_write laws path dumped b db1 db2 at1 succeed e_put in
      let stores' = load-Stores node path dumped (record sys { db = db2 }) sys' stores e5 in
      let (value_e, _) = config_read-Stores path value dumped sys'.db db stores' e_value in
      let plain' : contains_text (codes "NotFound") dumped ≡ false =
        subst (λ v. contains_text (codes "NotFound") v ≡ false) value_e plain in
      let e_dump' : node.dump (object fs) ≡ some dumped =
        subst (λ v. node.dump v ≡ some dumped) is_object e_dump in
      (
        load-permission_of node node_laws path website dumped allow fs (record sys { db = db2 })
            sys' stores e_dump' member_e plain' e5,
        load-permission_of node node_laws path website dumped allow fs later loaded
            (subst (Stores path dumped) (sym same_db) stores') e_dump' member_e plain' e_later,
      )
