-- ===== src/Wallet/Sending/Recorded.antt =====
-- A transaction that the node took is in the history.
use avme_wallet.Base.{
  bind-eq-some, some_inj, Str, codes, ◌≡◌, refl, sym, ap, ◌∙◌, subst, ◌⊎◌, inl, inr, Bool, true,
  false, some, List, map-append, [], ◌∷◌, ◌++◌, map,
}
use avme_wallet.Utils.Json.{JsonObject, Json, JsonLaws}
use avme_wallet.Utils.Json.Tree.{Value, contains_key}
use avme_wallet.Api.{Node, broadcast_tx}
use avme_wallet.Database.{ok, Leveldb, history_db, Database}
use avme_wallet.Database.Laws.{LeveldbLaws}
use avme_wallet.Database.Storage.{OpenAt, put_value_step, written-OpenAt}
use avme_wallet.Database.Operations as Operations
use avme_wallet.Database.History as History
use avme_wallet.Wallet.Accounts.{Keys}
use avme_wallet.Wallet.History.{
  TxData, tx_json, tx_of_json, save_tx_to_history, parse_history, load_tx_history,
}
use avme_wallet.Wallet.History.Saved.{tx_of_json-tx_json}
use avme_wallet.Wallet.Sending.{Ethcore, record_sent, send_transaction}

module _ (L : Leveldb) (j : Json) where
  parse_history-append :
      (t : TxData) (s : Str)
      → (p : JsonObject) → j.parse s ≡ some p
      → tx_of_json p ≡ some t
      → (front rest : List Str) (history : List TxData)
      → parse_history L j (front ++ s ∷ rest) ≡ some history
      → (before after : List TxData) × (history ≡ before ++ t ∷ after)
  unfolding parse_history
  parse_history-append t s p parsed made [] rest history e =
      let (p', parsed', e₁) = bind-eq-some (j.parse s) _ e in
      let same_object : p' ≡ p = some_inj (sym parsed' ∙ parsed) in
      let (t', made', e₂) = bind-eq-some (tx_of_json p') _ e₁ in
      let same_tx : t' ≡ t = some_inj (sym made' ∙ ap tx_of_json same_object ∙ made) in
      let (after, _, e₃) = bind-eq-some (parse_history L j rest) _ e₂ in
      ([], after, sym (some_inj e₃) ∙ ap (λ x. x ∷ after) same_tx)
  parse_history-append t s p parsed made (f ∷ front) rest history e =
      let (q, _, e₁) = bind-eq-some (j.parse f) _ e in
      let (t', _, e₂) = bind-eq-some (tx_of_json q) _ e₁ in
      let (tail, all, e₃) = bind-eq-some (parse_history L j (front ++ s ∷ rest)) _ e₂ in
      let (before, after, split) = parse_history-append t s p parsed made front rest tail all in
      (t' ∷ before, after, sym (some_inj e₃) ∙ ap (◌∷◌ t') split)

  -- Writes into the history report success.
  abbrev pub HistoryWritesSucceed : Str → Type 0
  HistoryWritesSucceed path =
      (disk : L.Disk) (key value : Str)
      → (disk' : L.Disk) × (L.put disk path key value ≡ (ok, disk'))

  saved-loaded :
      LeveldbLaws L
      → JsonLaws j
      → (path : Str) (tx : TxData) (b : Bool) (d d' : Database L) (history : List TxData)
      → OpenAt L history_db path d
      → HistoryWritesSucceed path
      → save_tx_to_history L j tx d ≡ some (b, d')
      → load_tx_history L j d' ≡ some history
      → (before after : List TxData) × (history ≡ before ++ tx ∷ after)
  unfolding save_tx_to_history load_tx_history History.put_value History.all_values
      Operations.all_values
  saved-loaded laws json path tx b d d' history at succeed e e_load =
      let (s, dumped, e₁) = bind-eq-some (j.dump (tx_json tx)) _ e in
      let (disk', did) = succeed d.disk tx.hash s in
      let step : Operations.written L history_db (ok, disk') d ≡ (b, d') =
        ap (λ r. Operations.written L history_db r d) (sym did)
        ∙ some_inj (sym (put_value_step L history_db path tx.hash s d at) ∙ e₁) in
      let at' =
        subst (OpenAt L history_db path) (ap (λ x. x.1) step)
          (written-OpenAt L history_db path (ok, disk') d at) in
      let (front, rest, stored) = laws.entries-put d.disk disk' path tx.hash s did in
      let stored' : L.entries d'.disk path ≡ front ++ (tx.hash, s) ∷ rest =
        ap (λ x. L.entries (Database.disk x.1) path) (sym step) ∙ stored in
      let (values, listed, e₂) = bind-eq-some (History.all_values L d') _ e_load in
      let texts : values ≡ map (λ p. p.1) front ++ s ∷ map (λ p. p.1) rest = some_inj (
        sym listed
        ∙ rw (at', stored') (ap some (map-append (λ p. p.1) front ((tx.hash, s) ∷ rest)))) in
      let (p, parsed, made) = tx_of_json-tx_json j json tx s dumped in
      parse_history-append tx s p parsed made (map (λ p. p.1) front) (map (λ p. p.1) rest) history
        (subst (λ x. parse_history L j x ≡ some history) texts e₂)

  module _ (K : Keys) (eth : Ethcore K) where
    -- With the answer at hand.
    recorded :
        LeveldbLaws L
        → JsonLaws j
        → (path txid_hex operation : Str) (took : Bool) (d d' : Database L) (history : List TxData)
        → OpenAt L history_db path d
        → HistoryWritesSucceed path
        → record_sent K eth L j txid_hex operation took d ≡ some d'
        → load_tx_history L j d' ≡ some history
        → ((took ≡ true)
            × (tx : TxData) × (before after : List TxData) × (eth.decode_raw_transaction txid_hex
                ≡ some tx)
            × (history ≡ before ++ (record tx { operation = operation }) ∷ after))
          ⊎ ((took ≡ false) × (d' ≡ d))
    unfolding record_sent
    recorded laws json path txid_hex operation false d d' history at succeed e e_load =
        inr (refl, sym (some_inj e))
    recorded laws json path txid_hex operation true d d' history at succeed e e_load =
        let (tx, decoded, e₅) = bind-eq-some (eth.decode_raw_transaction txid_hex) _ e in
        let ((b, d₂), saved, e₆) =
          bind-eq-some (save_tx_to_history L j (record tx { operation = operation }) d) _ e₅ in
        let (before, after, split) =
          saved-loaded laws json path (record tx { operation = operation }) b d d₂ history at
            succeed saved
            (subst (λ x. load_tx_history L j x ≡ some history) (sym (some_inj e₆)) e_load) in
        inl (refl, tx, before, after, decoded, split)

    -- What sendTransaction does to the history of the current account, which is open and whose writes
    -- succeed: if the node answers with a result, the transaction that was sent is among the loaded
    -- ones, with the operation that was given and every other field of its decoding; if not, the
    -- database is as it was.
    pub send_transaction-load_tx_history :
        LeveldbLaws L
        → JsonLaws j
        → (node : Node) (path txid_hex operation : Str) (result : Value) (d d' : Database L)
          (history : List TxData)
        → OpenAt L history_db path d
        → HistoryWritesSucceed path
        → send_transaction K eth L j node txid_hex operation d ≡ some (result, d')
        → load_tx_history L j d' ≡ some history
        → ((contains_key (codes "result") result ≡ true)
            × (tx : TxData) × (before after : List TxData) × (eth.decode_raw_transaction txid_hex
                ≡ some tx)
            × (history ≡ before ++ (record tx { operation = operation }) ∷ after))
          ⊎ ((contains_key (codes "result") result ≡ false) × (d' ≡ d))
    unfolding send_transaction
    send_transaction-load_tx_history laws json node path txid_hex operation result d d' history at
          succeed e e_load =
        let (resp, _, e₁) = bind-eq-some (broadcast_tx node txid_hex) _ e in
        let (answer, _, e₂) = bind-eq-some (node.parse resp) _ e₁ in
        let (d₁, e_record, e₃) =
          bind-eq-some
            (record_sent K eth L j txid_hex operation (contains_key (codes "result") answer) d) _
            e₂ in
        let same_result : answer ≡ result = ap (λ x. x.0) (some_inj e₃) in
        let same_db : d₁ ≡ d' = ap (λ x. x.1) (some_inj e₃) in
        recorded laws json path txid_hex operation (contains_key (codes "result") result) d d'
          history at succeed
          (subst
            (λ v.
              record_sent K eth L j txid_hex operation (contains_key (codes "result") v) d
              ≡ some d')
            same_result (e_record ∙ ap some same_db))
          e_load
