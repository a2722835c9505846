-- ===== src/Settings/Loading.antt =====
-- qmlwrap/QmlSystem.cpp, loadConfigDB, where the settings are on the disk.
use avme_wallet.Base.{
  if◌then◌else◌, Bool-cases, Str, codes, same, same→eq, ℕ, ◌≡◌, refl, sym, ◌∙◌, subst, inl, inr,
  Option, some,
}
use avme_wallet.Utils.Json.Tree.{Value}
use avme_wallet.LastUsed.JsonFiles.{Printer}
use avme_wallet.Database.{Leveldb, config_db, Database}
use avme_wallet.Database.Storage.{OpenAt}
use avme_wallet.Api.{Host, Hosts}
use avme_wallet.Settings.{
  Nodes, not_found, old_host, public_json, public_websocket_json, wallet_json, host_of, set_missing,
  replace_old, load_hosts,
}
use avme_wallet.Settings.Saved.{
  SettingsLaws, StoredWallet, StoredWebsocket, Stored, Saved, after_read, get_config_value-found,
  get_json-found,
}
use avme_wallet.Settings.Changes.{set_json-some, set_json-StoredWallet}

-- The public node in place of the old one.
abbrev pub public_host : Host
public_host = record {
  host = codes "api.avax.network";
  port = codes "443";
  target = codes "/ext/bc/C/rpc";
}

abbrev pub current : Host → Host
current a = if same a.host old_host then public_host else a

module _ (L : Leveldb) (j : Printer) (cast_port : Str → Option ℕ) (laws : SettingsLaws L j) where
  set_missing-there :
      (key text : Str) (v stored : Value) (d : Database L)
      → j.parse text ≡ some stored
      → set_missing L j cast_port key v text d ≡ some d
  unfolding set_missing
  set_missing-there key text v stored d parsed = elim (Bool-cases (same text not_found)) [
    | inl y ↦
        let e : j.parse not_found ≡ some stored =
          subst (λ x. j.parse x ≡ some stored) (same→eq text not_found y) parsed in
        let e' = sym laws.parse-not_found ∙ e in cc
    | inr n ↦ rw n refl
  ]

  replace_old-current :
      (path : Str) (a c : Host) (port : ℕ) (d : Database L)
      → OpenAt L config_db path d
      → StoredWallet L j cast_port path d.disk a
      → StoredWebsocket L j cast_port path d.disk c port
      → (d' : Database L) × (replace_old L j cast_port (wallet_json a.host a.port a.target) d
          ≡ some (wallet_json ((current a).host) ((current a).port) ((current a).target), d'))
        × OpenAt L config_db path d'
        × StoredWallet L j cast_port path d'.disk (current a)
        × StoredWebsocket L j cast_port path d'.disk c port
  unfolding replace_old
  replace_old-current path a c port d at wallet websocket =
      elim (Bool-cases (same a.host old_host)) [
        | inl y ↦
            let (d', e) =
              set_json-some L j cast_port laws path (codes "walletAPI") public_json d at
                laws.dump_public in
            let (at', wallet', websocket') =
              set_json-StoredWallet L j cast_port laws path public_host c port d d' at websocket
                e in
            rw y (d', rw e refl, at', wallet', websocket')
        | inr n ↦ rw n (d, refl, at, wallet, websocket)
      ]

  pub load_hosts-Saved :
      (path : Str) (s : Nodes L) (h : Hosts) (port : ℕ)
      → OpenAt L config_db path s.db
      → Stored L j cast_port path s.db.disk h port
      → (t : Nodes L) × (load_hosts L j cast_port s ≡ some t)
        × (t.hosts ≡ record h { api = current h.api })
        × (t.port ≡ port)
        × (t.listening ≡ s.listening)
        × Saved L j cast_port path t
  unfolding load_hosts host_of
  load_hosts-Saved path s h port at
        ((text, e_get, e_parse), (text', plugin_port, e_get', e_parse', e_cast)) =
      let d1 = after_read L j cast_port text s.db in
      let d2 = after_read L j cast_port text' d1 in
      let d5 = after_read L j cast_port text d2 in
      let d6 = after_read L j cast_port text' d5 in
      let e1 = get_config_value-found L j cast_port path (codes "walletAPI") text s.db at e_get in
      let e2 =
        get_config_value-found L j cast_port path (codes "websocketAPI") text' d1 at e_get' in
      let e3 = set_missing-there (codes "walletAPI") text public_json _ d2 e_parse in
      let e4 = set_missing-there (codes "websocketAPI") text' public_websocket_json _ d2 e_parse' in
      let e5 = get_json-found L j cast_port path (codes "walletAPI") text _ d2 at e_get e_parse in
      let e6 =
        get_json-found L j cast_port path (codes "websocketAPI") text' _ d5 at e_get' e_parse' in
      let (d7, e7, at', wallet, websocket) =
        replace_old-current path h.api h.web_socket port d6 at (text, e_get, e_parse)
          (text', plugin_port, e_get', e_parse', e_cast) in
      (
        record s { db = d7; port = port; hosts = record h { api = current h.api } },
        rw (e1, e2, e3, e4, e5, e6, e7, e_cast) refl,
        refl,
        refl,
        refl,
        (at', (wallet, websocket)),
      )
