-- ===== src/Wallet/Stores.antt =====
-- core/Wallet.cpp, the functions that hand over to one database: opening and closing, contacts,
-- DApps, Ledger accounts and settings, with import and export of files.
use avme_wallet.Base.{
  if◌then◌else◌, ◌>>=◌, length, Str, codes, ℕ, ◌+◌, Bool, true, false, Option, none, some, List, [],
  ◌∷◌,
}
use avme_wallet.Utils.Json.{text, number, JsonObject, text_field, Json}
use avme_wallet.Database.{Leveldb, Database}
use avme_wallet.Database.Token as Token
use avme_wallet.Database.History as History
use avme_wallet.Database.Ledger as Ledger
use avme_wallet.Database.App as App
use avme_wallet.Database.Address as Address
use avme_wallet.Database.Config as Config
use avme_wallet.Database.Operations as Operations

module _ (L : Leveldb) where
  pub close_token_db : Database L → Database L
  close_token_db d = if Token.is_open L d then Token.close L d else d

  pub close_history_db : Database L → Database L
  close_history_db d = if History.is_open L d then History.close L d else d

  pub close_ledger_db : Database L → Database L
  close_ledger_db d = if Ledger.is_open L d then Ledger.close L d else d

  pub close_app_db : Database L → Database L
  close_app_db d = if App.is_open L d then App.close L d else d

  pub close_address_db : Database L → Database L
  close_address_db d = if Address.is_open L d then Address.close L d else d

  pub close_config_db : Database L → Database L
  close_config_db d = if Config.is_open L d then Config.close L d else d

  pub load_token_db : Json → Str → Database L → Option (Bool × Database L)
  load_token_db j folder d =
      Token.open_db L j folder (if Token.is_open L d then Token.close L d else d)

  pub load_history_db : Str → Str → Database L → Bool × Database L
  load_history_db folder account d =
      History.open_db L folder account (if History.is_open L d then History.close L d else d)

  pub load_ledger_db : Str → Database L → Bool × Database L
  load_ledger_db folder d =
      Ledger.open_db L folder (if Ledger.is_open L d then Ledger.close L d else d)

  pub load_app_db : Str → Database L → Bool × Database L
  load_app_db folder d = App.open_db L folder (if App.is_open L d then App.close L d else d)

  pub load_address_db : Str → Database L → Bool × Database L
  load_address_db folder d =
      Address.open_db L folder (if Address.is_open L d then Address.close L d else d)

  unfoldable pub load_config_db : Str → Database L → Bool × Database L
  load_config_db folder d =
      Config.open_db L folder (if Config.is_open L d then Config.close L d else d)

  -- The database is opened again after a write that succeeds; what that reports is dropped.
  pub import_ledger_account : Json → Str → Str → Str → Database L → Option (Bool × Database L)
  import_ledger_account j folder account path d = do
    dumped ← j.dump ((codes "address", text account) ∷ (codes "index", text path) ∷ [])
    r ← Ledger.put_value L account dumped d
    some (r.0, if r.0 then (load_ledger_db folder (r.1)).1 else r.1)

  pub parse_pairs : Json → Str → Str → List Str → Option (List (Str × Str))
  parse_pairs j first second [] = some []
  parse_pairs j first second (value ∷ values) = do
    object ← j.parse value
    a ← text_field first object
    b ← text_field second object
    rest ← parse_pairs j first second values
    some ((a, b) ∷ rest)

  -- Address and path of each account.
  unfoldable pub get_all_ledger_accounts : Json → Database L → Option (List (Str × Str))
  unfolding parse_pairs
  get_all_ledger_accounts j d = do
    accounts_list ← Ledger.all_values L d
    parse_pairs j (codes "address") (codes "index") accounts_list

  pub delete_ledger_account : Str → Database L → Option (Bool × Database L)
  delete_ledger_account account d = Ledger.delete_value L account d

  pub ledger_account_exists : Str → Database L → Option Bool
  ledger_account_exists account d = Ledger.key_exists L account d

  pub parse_apps : Json → List Str → Option (List JsonObject)
  parse_apps j [] = some []
  parse_apps j (app_json ∷ app_json_list) = do
    app ← j.parse app_json
    rest ← parse_apps j app_json_list
    some (app ∷ rest)

  pub get_registered_apps : Json → Database L → Option (List JsonObject)
  get_registered_apps j d = do app_json_list ← App.all_values L d; parse_apps j app_json_list

  pub app_is_registered : Str → Database L → Option Bool
  app_is_registered folder d = App.key_exists L folder d

  pub register_app : Json → ℕ → Str → Str → ℕ → ℕ → ℕ → Database L → Option (Bool × Database L)
  register_app j chain_id folder name major minor patch d = do
    dumped ← j.dump (
        (codes "chainId", number chain_id)
        ∷ (codes "folder", text folder)
        ∷ (codes "name", text name)
        ∷ (codes "major", number major)
        ∷ (codes "minor", number minor)
        ∷ (codes "patch", number patch)
        ∷ [])
    App.put_value L folder dumped d

  pub unregister_app : Str → Database L → Option (Bool × Database L)
  unregister_app folder d = App.delete_value L folder d

  -- A std::map: the first contact of an address stays.
  pub get_contacts : Json → Database L → Option (List (Str × Str))
  get_contacts j d = do
    contacts ← Address.all_values L d
    pairs ← parse_pairs j (codes "address") (codes "name") contacts
    some (Operations.to_map L [] pairs)

  unfoldable pub add_contact : Json → Str → Str → Database L → Option (Bool × Database L)
  add_contact j account name d = do
    dumped ← j.dump ((codes "address", text account) ∷ (codes "name", text name) ∷ [])
    Address.put_value L account dumped d

  pub remove_contact : Str → Database L → Option (Bool × Database L)
  remove_contact account d = Address.delete_value L account d

  unfoldable pub get_config_value : Str → Database L → Option (Str × Database L)
  get_config_value key d = Config.get_value L key d

  unfoldable pub set_config_value : Str → Str → Database L → Option (Bool × Database L)
  set_config_value key value d = Config.put_value L key value d

  pub erase_all_history : Database L → Option (Database L)
  erase_all_history d = History.delete_all_keys L d

  -- The objects of a contacts file, each written under its address; the count of the writes that
  -- succeeded.
  pub put_contacts : Json → List JsonObject → ℕ → Database L → Option (ℕ × Database L)
  put_contacts j [] count d = some (count, d)
  put_contacts j (contact ∷ contacts) count d = do
    account ← text_field (codes "address") contact
    dumped ← j.dump contact
    r ← Address.put_value L account dumped d
    put_contacts j contacts (count + (if r.0 then 1 else 0)) (r.1)

  -- `file` is the list under "contacts" in the file, `none` if the file does not exist.
  pub import_contacts : Json → Option (List JsonObject) → Database L → Option (ℕ × Database L)
  unfolding put_contacts
  import_contacts j none d = some (0, d)
  import_contacts j (some contacts) d = put_contacts j contacts 0 d

  -- What is written into the file, and the count that is returned if `write` reports success.
  pub export_contacts : Json → (List JsonObject → Bool) → Database L → Option (ℕ × List JsonObject)
  export_contacts j write d = do
    contacts ← Address.all_values L d
    objects ← parse_apps j contacts
    some (if write objects then length objects else 0, objects)

  pub put_configs : List (Str × Str) → Database L → Option (Database L)
  put_configs [] d = some d
  put_configs ((key, value) ∷ configs) d = do
    r ← Config.put_value L key value d
    put_configs configs (r.1)

  pub import_configs : Option (List (Str × Str)) → Database L → Option (Bool × Database L)
  unfolding put_configs
  import_configs none d = some (false, d)
  import_configs (some configs) d = do written ← put_configs configs d; some (true, written)

  pub export_configs : (List (Str × Str) → Bool) → Database L → Option Bool
  export_configs write d = do config_values ← Config.all_pairs L d; some (write config_values)
