-- ===== src/Sites/Lost.antt =====
-- A list of permissions in whose text "NotFound" stands.
use avme_wallet.Base.{bind-eq-some, some_inj, Str, codes, ◌≡◌, sym, ap, subst, Bool, true, some}
use avme_wallet.Database.{Leveldb, config_db, Database}
use avme_wallet.Database.Laws.{LeveldbLaws}
use avme_wallet.Database.Storage.{OpenAt}
use avme_wallet.Utils.Json.Tree.{boolean, assign}
use avme_wallet.Api.{Node}
use avme_wallet.Wallet.Stores.{get_config_value, set_config_value}
use avme_wallet.Sites.{
  System, contains_text, permissions_key, loaded_list, load_permission_list, stored_list,
  store_and_load, add_to_permission_list,
}
use avme_wallet.Sites.Grants.{
  config_read, WritesSucceed, config_write, Stores, config_read-Stores, load-Stores,
}

module _ (L : Leveldb) where
  load_not_found :
      (node : Node) (path value : Str) (sys sys' : System L)
      → Stores L path value sys.db
      → contains_text (codes "NotFound") value ≡ true
      → load_permission_list L node sys ≡ some sys'
      → sys'.permission_list ≡ sys.permission_list
  unfolding load_permission_list loaded_list
  load_not_found node path value sys sys' stores lost e =
      let ((read, db), e_get, e1) = bind-eq-some (get_config_value L permissions_key sys.db) _ e in
      let (same_text, _) = config_read-Stores L path read value sys.db db stores e_get in
      let e2 =
        subst (λ v. loaded_list L node v (record sys { db = db }) ≡ some sys') same_text e1 in
      ap System.permission_list (sym (some_inj (rw (lost, loaded_list) at e2)))

  -- If "NotFound" stands in the text that is stored with an answer, as it does for a site with such a
  -- name, the answer is not in effect: with the settings open and writes that succeed, the list behind
  -- addToPermissionList is the list before it, whatever the user allowed.
  pub add_to_permission_list_lost :
      LeveldbLaws L
      → (node : Node) (path website value : Str) (allow : Bool) (sys sys' : System L)
        (db : Database L)
      → OpenAt L config_db path sys.db
      → WritesSucceed L path
      → add_to_permission_list L node website allow sys ≡ some sys'
      → get_config_value L permissions_key sys'.db ≡ some (value, db)
      → contains_text (codes "NotFound") value ≡ true
      → sys'.permission_list ≡ sys.permission_list
  unfolding add_to_permission_list store_and_load
  add_to_permission_list_lost laws node path website value allow sys sys' db at succeed e e_value
        lost =
      let ((old, db1), e_get, e1) = bind-eq-some (get_config_value L permissions_key sys.db) _ e in
      let (_, _, at1) = config_read L path old sys.db db1 at e_get in
      let (stored, _, e2) = bind-eq-some (stored_list L node old) _ e1 in
      let (updated, _, e3) = bind-eq-some (assign website (boolean allow) stored) _ e2 in
      let (dumped, _, e4) = bind-eq-some (node.dump updated) _ e3 in
      let ((b, db2), e_put, e5) =
        bind-eq-some (set_config_value L permissions_key dumped db1) _ e4 in
      let stores = config_write L laws path dumped b db1 db2 at1 succeed e_put in
      let stores' = load-Stores L node path dumped (record sys { db = db2 }) sys' stores e5 in
      let (value_e, _) = config_read-Stores L path value dumped sys'.db db stores' e_value in
      load_not_found node path dumped (record sys { db = db2 }) sys' stores
        (subst (λ v. contains_text (codes "NotFound") v ≡ true) value_e lost) e5
