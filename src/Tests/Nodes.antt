-- ===== src/Tests/Nodes.antt =====
-- qmlwrap/QmlSystem.cpp, the settings of the nodes at concrete inputs.
use avme_wallet.Base.{
  ◌==◌, if◌then◌else◌, Str, codes, ℕ, ◌^◌, ◌≡◌, refl, Bool, Option, none, some, List, [], ◌∷◌,
}
use avme_wallet.Utils.Json.Tree.{Value}
use avme_wallet.LastUsed.JsonFiles.{Printer}
use avme_wallet.Database.{new_database}
use avme_wallet.Api.{set_default_api, set_web_socket_api}
use avme_wallet.Wallet.Stores.{load_config_db, get_config_value, set_config_value}
use avme_wallet.Database.Config as Config
use avme_wallet.Database.Operations as Operations
use avme_wallet.Settings.{
  old_host, Nodes, host_of, set_json, get_json, set_missing, replace_old, load_hosts, load_settings,
  set_wallet_api, set_web_socket,
}
use avme_wallet.Settings.Restart.{
  Change, wallet_change, websocket_change, restart, change, change_all, spec, spec_all, fresh,
}
use avme_wallet.Tests.Trees.{print_tree, parse_tree}
use avme_wallet.Tests.Conversions.{read_decimal}
use avme_wallet.Tests.Disks.{disks}

-- The printer of trees, with a mark that a text of LevelDB does not begin with.
abbrev read_marked : Str → Option Value
read_marked [] = none
read_marked (c ∷ s) = if c == 0 then parse_tree s else none

abbrev marked : Printer
marked = record { dump = λ v. some (0 ∷ print_tree v); parse = read_marked }

abbrev cast_port : Str → Option ℕ
cast_port s = read_decimal (2 ^ 16) s

abbrev folder : Str
folder = codes "f"

-- The first start, over an empty disk, writes the public node.
abbrev first_start : Nodes disks
first_start = fresh disks (λ p. [])

abbrev nodes_of : Option (Bool × Nodes disks) → Nodes disks
nodes_of none = first_start
nodes_of (some r) = r.1

abbrev started : Nodes disks
started = nodes_of (load_settings disks marked cast_port folder first_start)

-- Another node, another port of the server, a port that is no number, and the old node.
abbrev changes : List Change
changes =
    wallet_change (codes "node") (codes "80") (codes "/rpc")
    ∷ websocket_change (codes "ws") (codes "81") (codes "/ws") (codes "5000")
    ∷ websocket_change (codes "ws") (codes "82") (codes "/ws") (codes "port")
    ∷ restart
    ∷ wallet_change old_host (codes "443") []
    ∷ []

abbrev changed : Nodes disks
changed = elim (change_all disks marked cast_port folder changes started) [
  | none ↦ first_start
  | some s ↦ s
]

-- The port is that of the second change, and behind the start nothing listens.
changed_port : (changed.port ≡ 5000) × (changed.listening ≡ none)
unfolding change_all change load_settings load_hosts set_missing get_json set_json replace_old
    set_wallet_api set_web_socket load_config_db get_config_value set_config_value Config.open_db
    Config.is_open Config.close Config.get_value Config.put_value Operations.open_at
    Operations.is_open Operations.close Operations.get_value Operations.put_value host_of
    set_default_api set_web_socket_api print_tree parse_tree new_database spec spec_all
changed_port = (refl, refl)
