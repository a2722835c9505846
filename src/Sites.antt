-- ===== src/Sites.antt =====
-- qmlwrap/QmlServer.cpp: the list of the web sites that may see the account, kept in the settings.
pub mod Requests
pub mod Handler
pub mod Stored
pub mod Grants
pub mod Lost
pub mod Safety
pub mod Locks
use avme_wallet.Base.{
  ◌==◌, ◌>>=◌, Str, codes, Bool, true, false, ◌&&◌, ◌||◌, Option, none, some, List, [], ◌∷◌,
}
use avme_wallet.Database.{Leveldb, Database}
use avme_wallet.Utils.Json.Tree.{
  Value, null, string, natural, negative, boolean, array, object, Fields, done, member, assign,
}
use avme_wallet.Api.{Node}
use avme_wallet.Wallet.Stores.{get_config_value, set_config_value}

-- The members of QmlSystem that the functions read and write. A mutex is locked or free:
-- `permission_locked` is permissionListMutex, `dialog_locked` globalUserInputRequest.
pub record System (L : Leveldb) : Type 0 where
  pub db : Database L
  pub permission_list : List (Str × Bool)
  pub permission_locked : Bool
  pub dialog_locked : Bool

abbrev pub begins_with : Str → Str → Bool
begins_with [] s = true
begins_with (c ∷ p) [] = false
begins_with (c ∷ p) (d ∷ s) = (c == d) && begins_with p s

-- s.find(part) != npos
unfoldable pub contains_text : Str → Str → Bool
contains_text part [] = begins_with part []
contains_text part (c ∷ s) = begins_with part (c ∷ s) || contains_text part s

abbrev pub permissions_key : Str
permissions_key = codes "websitePermissions"

-- std::make_pair(item.key(), item.value()) of each item; a value that is no flag throws.
unfoldable pub permission_items : Fields → Option (List (Str × Bool))
permission_items done = some []
permission_items (member website (boolean allow) fs) = do
  rest ← permission_items fs
  some ((website, allow) ∷ rest)
permission_items (member website null fs) = none
permission_items (member website (string s) fs) = none
permission_items (member website (natural n) fs) = none
permission_items (member website (negative n) fs) = none
permission_items (member website (array xs) fs) = none
permission_items (member website (object gs) fs) = none

-- The stored JSON is null or an object; no function writes another one.
unfoldable pub stored_permissions : Value → Option (List (Str × Bool))
stored_permissions null = some []
stored_permissions (object fs) = permission_items fs
stored_permissions (string s) = none
stored_permissions (natural n) = none
stored_permissions (negative n) = none
stored_permissions (boolean b) = none
stored_permissions (array xs) = none

module _ (L : Leveldb) where
  -- A text with "NotFound" leaves the list as it is.
  unfoldable pub loaded_list : Node → Str → System L → Option (System L)
  loaded_list node config_value sys = elim (contains_text (codes "NotFound") config_value) [
    | true ↦ some sys
    | false ↦ do
      stored ← node.parse config_value
      list ← stored_permissions stored
      some (record sys { permission_list = list })
  ]

  unfoldable pub load_permission_list : Node → System L → Option (System L)
  load_permission_list node sys = do
    (config_value, db) ← get_config_value L permissions_key sys.db
    loaded_list node config_value (record sys { db = db })

  -- The JSON that the new permission is put into.
  unfoldable pub stored_list : Node → Str → Option Value
  stored_list node config_value = elim (contains_text (codes "NotFound") config_value) [
    | true ↦ some null
    | false ↦ node.parse config_value
  ]

  -- setConfigValue, whose report of success is not read, and loadPermissionList.
  unfoldable pub store_and_load : Node → Str → System L → Option (System L)
  store_and_load node dumped sys = do
    (_, db) ← set_config_value L permissions_key dumped sys.db
    load_permission_list node (record sys { db = db })

  unfoldable pub add_to_permission_list : Node → Str → Bool → System L → Option (System L)
  add_to_permission_list node website allow sys = do
    (config_value, db) ← get_config_value L permissions_key sys.db
    stored ← stored_list node config_value
    updated ← assign website (boolean allow) stored
    dumped ← node.dump updated
    store_and_load node dumped (record sys { db = db })

  pub clear_website_permission_list : Node → System L → Option (System L)
  clear_website_permission_list node sys = do
    dumped ← node.dump null
    store_and_load node dumped sys

-- ret[permission.first] = permission.second, one after the other.
unfoldable pub permission_json : List (Str × Bool) → Value → Option Value
permission_json [] ret = some ret
permission_json ((website, allow) ∷ list) ret = do
  ret' ← assign website (boolean allow) ret
  permission_json list ret'

pub get_website_permission_list : Node → List (Str × Bool) → Option Str
get_website_permission_list node list = do ret ← permission_json list null; node.dump ret
