-- ===== src/Settings.antt =====
-- qmlwrap/QmlSystem.cpp, the settings of the nodes: loadConfigDB, setWalletAPI and setWebSocketAPI with
-- startWSServer and stopWSServer of qmlwrap/QmlServer.cpp. LevelDB, nlohmann's printer and parser and
-- `boost::lexical_cast<unsigned short>` are parameters; `none` is an exception or a pointer that is NULL.
pub mod Saved
pub mod Changes
pub mod Loading
pub mod Restart
use avme_wallet.Base.{
  if◌then◌else◌, ◌>>=◌, Str, codes, same, ℕ, Bool, true, false, not, Option, none, some,
}
use avme_wallet.Utils.Json.Tree.{Value, string, object, done, member, index, assign, is_string}
use avme_wallet.LastUsed.JsonFiles.{Printer}
use avme_wallet.LastUsed.{string_at}
use avme_wallet.Database.{Leveldb, Database}
use avme_wallet.Wallet.Stores.{load_config_db, get_config_value, set_config_value}
use avme_wallet.Api.{Host, Hosts, set_default_api, set_web_socket_api}

-- The wallet's databases, the statics of network/API.cpp, the server's member port, and the port that
-- Server::start was called with, until it is stopped.
pub record Nodes (L : Leveldb) : Type 0 where
  pub db : Database L
  pub hosts : Hosts
  pub port : ℕ
  pub listening : Option ℕ

abbrev pub wallet_json : Str → Str → Str → Value
wallet_json host port target = object (
    member (codes "host") (string host)
      (member (codes "port") (string port) (member (codes "target") (string target) done)))

-- The members in the order of their keys.
abbrev pub websocket_json : Str → Str → Str → Str → Value
websocket_json host port target plugin_port = object (
    member (codes "host") (string host) (
      member (codes "pluginPort") (string plugin_port)
        (member (codes "port") (string port) (member (codes "target") (string target) done))))

abbrev pub not_found : Str
not_found = codes "NotFound: "

abbrev pub old_host : Str
old_host = codes "api.avme.io"

abbrev pub public_json : Value
public_json = wallet_json (codes "api.avax.network") (codes "443") (codes "/ext/bc/C/rpc")

abbrev pub public_websocket_json : Value
public_websocket_json =
    websocket_json (codes "api.avax.network") (codes "443") (codes "/ext/bc/C/rpc") (codes "4812")

-- The three members that both settings have, as they are passed to the API.
unfoldable pub host_of : Value → Option Host
host_of v = do
  host ← string_at (codes "host") v
  port ← string_at (codes "port") v
  target ← string_at (codes "target") v
  some (record { host = host; port = port; target = target })

module _ (L : Leveldb) (j : Printer) (cast_port : Str → Option ℕ) where
  -- this->setConfigValue(key, v.dump()), whose result is dropped.
  unfoldable pub set_json : Str → Value → Database L → Option (Database L)
  set_json key v d = do dumped ← j.dump v; r ← set_config_value L key dumped d; some (r.1)

  -- json::parse(this->getConfigValue(key))
  unfoldable pub get_json : Str → Database L → Option (Value × Database L)
  get_json key d = do (stored, d') ← get_config_value L key d; v ← j.parse stored; some (v, d')

  -- if (stored == "NotFound: ") { … }
  unfoldable pub set_missing : Str → Value → Str → Database L → Option (Database L)
  set_missing key v stored d = if same stored not_found then set_json key v d else some d

  -- The members of the public node are written over those of the old one, and the others stay.
  unfoldable pub replace_old : Value → Database L → Option (Value × Database L)
  replace_old wallet_api d = do
    host ← index (codes "host") wallet_api
    if not (is_string host old_host) then some (wallet_api, d) else do
      v1 ← assign (codes "host") (string (codes "api.avax.network")) wallet_api
      v2 ← assign (codes "port") (string (codes "443")) v1
      v3 ← assign (codes "target") (string (codes "/ext/bc/C/rpc")) v2
      d' ← set_json (codes "walletAPI") v3 d
      some (v3, d')

  -- What follows when the database is open.
  unfoldable pub load_hosts : Nodes L → Option (Nodes L)
  load_hosts s = do
    (wallet_stored, d1) ← get_config_value L (codes "walletAPI") s.db
    (websocket_stored, d2) ← get_config_value L (codes "websocketAPI") d1
    d3 ← set_missing (codes "walletAPI") public_json wallet_stored d2
    d4 ← set_missing (codes "websocketAPI") public_websocket_json websocket_stored d3
    (wallet_read, d5) ← get_json (codes "walletAPI") d4
    (websocket_api, d6) ← get_json (codes "websocketAPI") d5
    (wallet_api, d7) ← replace_old wallet_read d6
    plugin_port ← string_at (codes "pluginPort") websocket_api
    port ← cast_port plugin_port
    api ← host_of wallet_api
    web_socket ← host_of websocket_api
    some (record s { db = d7; port = port; hosts = record { api = api; web_socket = web_socket } })

  unfoldable pub load_settings : Str → Nodes L → Option (Bool × Nodes L)
  load_settings folder s =
      let (status, d) = load_config_db L folder s.db in
      if not status
      then some (false, record s { db = d })
      else do s' ← load_hosts (record s { db = d }); some (true, s')

  unfoldable pub set_wallet_api : Str → Str → Str → Nodes L → Option (Nodes L)
  set_wallet_api host port target s = do
    d ← set_json (codes "walletAPI") (wallet_json host port target) s.db
    some (record s { db = d; hosts = set_default_api host port target s.hosts })

  abbrev pub stop_ws_server : Nodes L → Nodes L
  stop_ws_server s = record s { listening = none }

  abbrev pub start_ws_server : Nodes L → Nodes L
  start_ws_server s = record s { listening = some s.port }

  abbrev pub set_port : ℕ → Nodes L → Nodes L
  set_port port s = record s { port = port }

  -- `false` is bad_lexical_cast, behind the stop of the server.
  unfoldable pub set_web_socket : Str → Str → Str → Str → Nodes L → Option (Bool × Nodes L)
  set_web_socket host port target plugin_port s = elim (cast_port plugin_port) [
    | none ↦ some (false, stop_ws_server s)
    | some p ↦ do
      let started = start_ws_server (set_port p (stop_ws_server s))
      d ← set_json (codes "websocketAPI") (websocket_json host port target plugin_port) started.db
      some (
        true,
        record started { db = d; hosts = set_web_socket_api host port target started.hosts },
      )
  ]
