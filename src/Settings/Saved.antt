-- ===== src/Settings/Saved.antt =====
-- qmlwrap/QmlSystem.cpp: the settings of the nodes that are on the disk.
use avme_wallet.Base.{Str, codes, ℕ, ◌≡◌, refl, true, Option, none, some, ◌++◌}
use avme_wallet.Utils.Json.Tree.{Value}
use avme_wallet.LastUsed.JsonFiles.{Printer, in_order}
use avme_wallet.Database.{ok, found, Leveldb, config_db, Database}
use avme_wallet.Database.Laws.{LeveldbLaws}
use avme_wallet.Database.Storage.{OpenAt, get_value_step}
use avme_wallet.Database.Operations.{set_handle, read_handle}
use avme_wallet.Database.Config as Config
use avme_wallet.Wallet.Stores.{get_config_value}
use avme_wallet.Api.{Host, Hosts}
use avme_wallet.Settings.{Nodes, not_found, public_json, wallet_json, websocket_json, get_json}

abbrev pub config_path : Str → Str
config_path folder = folder ++ codes "/config"

-- What is relied on of the printer, and of a disk on which openings and writes succeed.
pub record SettingsLaws (L : Leveldb) (j : Printer) : Type 0 where
  pub leveldb : LeveldbLaws L
  pub parse-dump :
      (v : Value) (s : Str) → in_order v ≡ true → j.dump v ≡ some s → j.parse s ≡ some v
  pub parse-not_found : j.parse not_found ≡ none
  pub dump_public : (s : Str) × (j.dump public_json ≡ some s)
  pub put_ok : (d : L.Disk) (p k v : Str) → (L.put d p k v).0 ≡ ok
  pub open_path_ok : (d : L.Disk) (p : Str) → (L.open_path (L.create_directories d p) p).0 ≡ ok
  -- a database that is opened has what it had
  pub get-open_path :
      (d : L.Disk) (p k : Str)
      → L.get ((L.open_path (L.create_directories d p) p).1) p k ≡ L.get d p k

module _ (L : Leveldb) (j : Printer) (cast_port : Str → Option ℕ) where
  -- The two settings on the disk.
  abbrev pub StoredWallet : Str → L.Disk → Host → Type 0
  StoredWallet path d a =
      (text : Str) × (L.get d path (codes "walletAPI") ≡ found text)
      × (j.parse text ≡ some (wallet_json a.host a.port a.target))

  abbrev pub StoredWebsocket : Str → L.Disk → Host → ℕ → Type 0
  StoredWebsocket path d a port =
      (text plugin_port : Str) × (L.get d path (codes "websocketAPI") ≡ found text)
      × (j.parse text ≡ some (websocket_json a.host a.port a.target plugin_port))
      × (cast_port plugin_port ≡ some port)

  abbrev pub Stored : Str → L.Disk → Hosts → ℕ → Type 0
  Stored path d h port = StoredWallet path d h.api × StoredWebsocket path d h.web_socket port

  -- The database of the settings is open, and has what the program uses.
  abbrev pub Saved : Str → Nodes L → Type 0
  Saved path s = OpenAt L config_db path s.db × Stored path s.db.disk s.hosts s.port

  abbrev pub after_read : Str → Database L → Database L
  after_read v d = set_handle L config_db (read_handle L (d.handles config_db) (found v)) d

  pub get_config_value-found :
      (path key v : Str) (d : Database L)
      → OpenAt L config_db path d
      → L.get d.disk path key ≡ found v
      → get_config_value L key d ≡ some (v, after_read v d)
  unfolding get_config_value Config.get_value
  get_config_value-found path key v d at e =
      get_value_step L config_db config_db path key d (found v) at e

  pub get_json-found :
      (path key text : Str) (v : Value) (d : Database L)
      → OpenAt L config_db path d
      → L.get d.disk path key ≡ found text
      → j.parse text ≡ some v
      → get_json L j cast_port key d ≡ some (v, after_read text d)
  unfolding get_json
  get_json-found path key text v d at e parsed =
      rw (get_config_value-found path key text d at e, parsed) refl
