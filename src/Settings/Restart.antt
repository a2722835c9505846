-- ===== src/Settings/Restart.antt =====
-- qmlwrap/QmlSystem.cpp: sequences of changes of the settings of the nodes and of starts of the program,
-- against what they mean.
use avme_wallet.Base.{if◌then◌else◌, ◌>>=◌, Str, ℕ, ◌≡◌, Option, none, some, List, [], ◌∷◌}
use avme_wallet.LastUsed.JsonFiles.{Printer}
use avme_wallet.Database.{Status, Leveldb, Database, new_database}
use avme_wallet.Database.Config as Config
use avme_wallet.Api.{Hosts}
use avme_wallet.Settings.{Nodes, load_settings, set_wallet_api, set_web_socket}
use avme_wallet.Settings.Saved.{config_path, SettingsLaws, Saved}
use avme_wallet.Settings.Loading.{current}

pub data Change : Type 0 where
  -- host, port and target
  wallet_change : Str → Str → Str → Change
  -- and the port of the server
  websocket_change : Str → Str → Str → Str → Change
  restart : Change

-- The hosts, the port of the server, and the port that it listens on.
abbrev pub Used : Type 0
Used = Hosts × ℕ × Option ℕ

abbrev pub used : {L : Leveldb} → Nodes L → Used
used s = (s.hosts, s.port, s.listening)

-- What a change means for these: the server is stopped for a new port, and behind a start of the program
-- it does not run.
unfoldable pub spec : (Str → Option ℕ) → Change → Used → Used
spec cast_port (wallet_change host port target) (h, n, l) =
    (record h { api = record { host = host; port = port; target = target } }, n, l)
spec cast_port (websocket_change host port target plugin_port) (h, n, l) =
    elim (cast_port plugin_port) [
      | none ↦ (h, n, none)
      | some m ↦ (
        record h { web_socket = record { host = host; port = port; target = target } },
        m,
        some m,
      )
    ]
spec cast_port restart (h, n, l) = (record h { api = current h.api }, n, none)

unfoldable pub spec_all : (Str → Option ℕ) → List Change → Used → Used
spec_all cast_port [] u = u
spec_all cast_port (c ∷ cs) u = spec_all cast_port cs (spec cast_port c u)

-- The members of a program that was started, over the disk that the last one left.
abbrev pub fresh : (L : Leveldb) → L.Disk → Nodes L
fresh L disk = record {
  db = new_database L disk;
  hosts = record {
    api = record { host = []; port = []; target = [] };
    web_socket = record { host = []; port = []; target = [] };
  };
  port = 4812;
  listening = none;
}

module _ (L : Leveldb) (j : Printer) (cast_port : Str → Option ℕ) (folder : Str) where
  unfoldable pub change : Change → Nodes L → Option (Nodes L)
  change (wallet_change host port target) s = set_wallet_api L j cast_port host port target s
  change (websocket_change host port target plugin_port) s = do
    r ← set_web_socket L j cast_port host port target plugin_port s
    some (r.1)
  change restart s = do
    r ← load_settings L j cast_port folder (fresh L s.db.disk)
    if r.0 then some (r.1) else none

  unfoldable pub change_all : List Change → Nodes L → Option (Nodes L)
  change_all [] s = some s
  change_all (c ∷ cs) s = do s' ← change c s; change_all cs s'

module _ (L : Leveldb) where
  -- The disk behind the opening.
  abbrev pub opened : Str → L.Disk → Status × L.Disk
  opened path disk = L.open_path (L.create_directories disk path) path

module _ (L : Leveldb) (j : Printer) (cast_port : Str → Option ℕ) (laws : SettingsLaws L j)
    (folder : Str) where
  -- What is in use, and the settings on the disk with it.
  abbrev Uses : Nodes L → Used → Type 0
  Uses s u = (used s ≡ u) × Saved L j cast_port (config_path folder) s
