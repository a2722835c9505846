-- ===== src/Wallet/History/Saved.antt =====
-- A transaction that is saved is read back.
use avme_wallet.Base.{ltb, Str, codes, ℕ, ◌+◌, ◌%◌, ◌^◌, ◌<◌, ◌≡◌, refl, none, some, arith}
use avme_wallet.Utils.Casts.{Casts}
use avme_wallet.Utils.Json.{JsonObject, field, Json, JsonLaws}
use avme_wallet.Wallet.History.{TxData, tx_json, tx_of_json, Answers, judge}

fields :
    (tx : TxData) (p : JsonObject)
    → ((key : Str) → field key p ≡ field key (tx_json tx))
    → tx_of_json p ≡ some tx
unfolding tx_of_json tx_json
fields tx p same_fields =
    rw
      (
        same_fields (codes "operation"),
        same_fields (codes "hex"),
        same_fields (codes "type"),
        same_fields (codes "code"),
        same_fields (codes "to"),
        same_fields (codes "from"),
        same_fields (codes "data"),
        same_fields (codes "creates"),
        same_fields (codes "value"),
        same_fields (codes "nonce"),
        same_fields (codes "gas"),
        same_fields (codes "price"),
        same_fields (codes "hash"),
        same_fields (codes "v"),
        same_fields (codes "r"),
        same_fields (codes "s"),
        same_fields (codes "humanDate"),
        same_fields (codes "unixDate"),
        same_fields (codes "confirmed"),
        same_fields (codes "invalid"),
      )
      refl

-- The text that a transaction is stored as is parsed to an object that has every field of it.
pub tx_of_json-tx_json :
    (j : Json)
    → JsonLaws j
    → (tx : TxData) (s : Str) → j.dump (tx_json tx) ≡ some s
    → (p : JsonObject) × (j.parse s ≡ some p) × (tx_of_json p ≡ some tx)
tx_of_json-tx_json j laws tx s dumped =
    let (p, parsed, same_fields) = laws.parse-dump (tx_json tx) s dumped in
    (p, parsed, fields tx p same_fields)

-- With a block number that is read and a clock that does not overflow 64 bits: a transaction without a
-- status at the node is marked as invalid if its date is less than 300 seconds
-- ahead of the clock, so also one that was sent just now.
judge_unknown :
    (c : Casts) (answers : Answers) (now block : ℕ) (tx : TxData)
    → c.from_hex 256 answers.current_block ≡ some block
    → answers.status ≡ none
    → now + 300 < 2 ^ 64
    → judge c answers now tx ≡ some (record tx { invalid = ltb tx.unix_date (now + 300) })
unfolding judge
judge_unknown c answers now block tx current unknown small =
    let no_wrap : (now + 300) % 2 ^ 64 ≡ now + 300 = omega (arith, small) in
    rw (current, unknown, no_wrap) refl
