-- ===== src/Settings/Changes.antt =====
-- qmlwrap/QmlSystem.cpp, setWalletAPI and setWebSocketAPI: the settings on the disk stay those that the
-- program uses.
use avme_wallet.Base.{
  Option-cases, bind-eq-some, some_inj, length, Str, codes, ℕ, ◌≡◌, refl, sym, ap, ◌∙◌, subst, ◌≢◌,
  inl, inr, Bool, true, Option, some, arith,
}
use avme_wallet.Utils.Json.Tree.{Value}
use avme_wallet.LastUsed.JsonFiles.{Printer, in_order}
use avme_wallet.Database.{Status, ok, Leveldb, config_db, Database}
use avme_wallet.Database.Storage.{OpenAt, put_value_step, written-OpenAt, put_value-true}
use avme_wallet.Database.Operations.{written}
use avme_wallet.Database.Config as Config
use avme_wallet.Wallet.Stores.{set_config_value}
use avme_wallet.Api.{Host, set_default_api, set_web_socket_api}
use avme_wallet.Settings.{
  Nodes, wallet_json, websocket_json, set_json, set_wallet_api, set_web_socket,
}
use avme_wallet.Settings.Saved.{SettingsLaws, StoredWallet, StoredWebsocket, Saved}

websocket_other : codes "websocketAPI" ≢ codes "walletAPI"
websocket_other e = let size : 12 ≡ 9 = ap length e in absurd (omega (arith, size))

wallet_other : codes "walletAPI" ≢ codes "websocketAPI"
wallet_other e = let size : 9 ≡ 12 = ap length e in absurd (omega (arith, size))

module _ (L : Leveldb) (j : Printer) (cast_port : Str → Option ℕ) (laws : SettingsLaws L j) where
  written-ok :
      (r : Status × L.Disk) (d : Database L) → r.0 ≡ ok → (written L config_db r d).0 ≡ true
  written-ok (s, disk) d e = rw e refl

  set_json-puts :
      (path key : Str) (v : Value) (d d' : Database L)
      → OpenAt L config_db path d
      → set_json L j cast_port key v d ≡ some d'
      → (text : Str) × (j.dump v ≡ some text)
        × (L.put d.disk path key text ≡ (ok, d'.disk))
        × OpenAt L config_db path d'
  unfolding set_json set_config_value Config.put_value
  set_json-puts path key v d d' at e =
      let (text, e_text, e1) = bind-eq-some (j.dump v) _ e in
      let ((success, d₁), e_r, e2) = bind-eq-some (set_config_value L key text d) _ e1 in
      let r = L.put d.disk path key text in
      let e3 = some_inj (sym (put_value_step L config_db path key text d at) ∙ e_r) in
      let e4 : success ≡ true =
        sym (ap (λ x. x.0) e3) ∙ written-ok r d (laws.put_ok d.disk path key text) in
      let e5 = subst (λ b. set_config_value L key text d ≡ some (b, d₁)) e4 e_r in
      let (e_put, e_next) = put_value-true L config_db path key text d d₁ at e5 in
      let e6 : d₁ ≡ d' = some_inj e2 in
      (
        text,
        e_text,
        subst (λ x. L.put d.disk path key text ≡ (ok, Database.disk x)) e6 e_put,
        subst (OpenAt L config_db path) (sym e_next ∙ e6) (written-OpenAt L config_db path r d at),
      )

  -- A write that has its text succeeds.
  pub set_json-some :
      (path key : Str) (v : Value) (d : Database L)
      → OpenAt L config_db path d
      → (text : Str) × (j.dump v ≡ some text)
      → (d' : Database L) × (set_json L j cast_port key v d ≡ some d')
  unfolding set_json set_config_value Config.put_value
  set_json-some path key v d at (text, e) = (
    (written L config_db (L.put d.disk path key text) d).1,
    rw (e, put_value_step L config_db path key text d at) refl,
  )

  pub set_json-StoredWallet :
      (path : Str) (a c : Host) (port : ℕ) (d d' : Database L)
      → OpenAt L config_db path d
      → StoredWebsocket L j cast_port path d.disk c port
      → set_json L j cast_port (codes "walletAPI") (wallet_json a.host a.port a.target) d ≡ some d'
      → OpenAt L config_db path d'
        × StoredWallet L j cast_port path d'.disk a
        × StoredWebsocket L j cast_port path d'.disk c port
  unfolding in_order
  set_json-StoredWallet path a c port d d' at (t, p, e_get, e_t, e_p) e =
      let v = wallet_json a.host a.port a.target in
      let (text, e_text, e_put, at') = set_json-puts path (codes "walletAPI") v d d' at e in
      let kept =
        laws.leveldb.get-put_other d.disk d'.disk ok path (codes "walletAPI") text path
          (codes "websocketAPI") e_put (inr websocket_other) in
      (
        at',
        (
          text,
          laws.leveldb.get-put d.disk d'.disk path (codes "walletAPI") text e_put,
          laws.parse-dump v text refl e_text,
        ),
        (t, p, kept ∙ e_get, e_t, e_p),
      )

  pub set_wallet_api-Saved :
      (path host port target : Str) (s s' : Nodes L)
      → Saved L j cast_port path s
      → set_wallet_api L j cast_port host port target s ≡ some s'
      → Saved L j cast_port path s'
  unfolding set_wallet_api set_default_api
  set_wallet_api-Saved path host port target s s' (at, (wallet, websocket)) e =
      let a : Host = record { host = host; port = port; target = target } in
      let (d, e_d, e1) =
        bind-eq-some
          (set_json L j cast_port (codes "walletAPI") (wallet_json host port target) s.db) _ e in
      let (at', wallet', websocket') =
        set_json-StoredWallet path a s.hosts.web_socket s.port s.db d at websocket e_d in
      subst (Saved L j cast_port path) (some_inj e1) (at', (wallet', websocket'))

  pub set_web_socket-Saved :
      (path host port target plugin_port : Str) (s s' : Nodes L) (cast : Bool)
      → Saved L j cast_port path s
      → set_web_socket L j cast_port host port target plugin_port s ≡ some (cast, s')
      → Saved L j cast_port path s'
  unfolding set_web_socket set_web_socket_api in_order
  set_web_socket-Saved path host port target plugin_port s s' cast
        (at, ((t, e_get, e_t), websocket)) e =
      elim (Option-cases (cast_port plugin_port)) [
        | inl e0 ↦
            let e1 = some_inj (rw (e0, set_web_socket) at e) in
            subst (Saved L j cast_port path) (ap (λ r. r.1) e1) (at, ((t, e_get, e_t), websocket))
        | inr (p, e0) ↦
            let v = websocket_json host port target plugin_port in
            let (d, e_d, e1) =
              bind-eq-some (set_json L j cast_port (codes "websocketAPI") v s.db) _
                (rw (e0, set_web_socket) at e) in
            let (text, e_text, e_put, at') =
              set_json-puts path (codes "websocketAPI") v s.db d at e_d in
            let kept =
              laws.leveldb.get-put_other s.db.disk d.disk ok path (codes "websocketAPI") text path
                (codes "walletAPI") e_put (inr wallet_other) in
            let read =
              laws.leveldb.get-put s.db.disk d.disk path (codes "websocketAPI") text e_put in
            subst (Saved L j cast_port path) (ap (λ r. r.1) (some_inj e1)) (
              at',
              (
                (t, kept ∙ e_get, e_t),
                (text, plugin_port, read, laws.parse-dump v text refl e_text, e0),
              ),
            )
      ]
