-- ===== src/Database/Token.antt =====
-- core/Database.cpp, the Token functions.
use avme_wallet.Base.{◌>>=◌, Str, codes, Bool, Option, some, List, [], ◌∷◌, ◌++◌}
use avme_wallet.Database.{Leveldb, token_db, Database}
use avme_wallet.Database.Operations as Operations
use avme_wallet.Pangolin.Contracts.{contracts}
use avme_wallet.Utils.Json.{text, number, JsonObject, Json}

module _ (L : Leveldb) where
  abbrev pub avme : JsonObject
  avme =
      (codes "address", text (contracts (codes "AVME")))
      ∷ (codes "symbol", text (codes "AVME"))
      ∷ (codes "name", text (codes "AVME"))
      ∷ (codes "decimals", number 18)
      ∷ (codes "avaxPairContract", text (contracts (codes "AVAX-AVME")))
      ∷ []

  -- AVME is written into an empty database.
  unfoldable pub seed : Json → Bool → List Str → Database L → Option (Bool × Database L)
  seed j opened [] d = do
    dumped ← j.dump avme
    Operations.put_value L token_db (contracts (codes "AVME")) dumped d
  seed j opened (value ∷ values) d = some (opened, d)

  -- An open that failed leaves the pointer NULL for the look whether the database is empty.
  unfoldable pub open_db : Json → Str → Database L → Option (Bool × Database L)
  open_db j folder d =
      let r = Operations.open_at L token_db (folder ++ codes "/wallet/c-avax/tokens") d in
      do
        token_json_list ← Operations.all_values L token_db (r.1)
        seed j (r.0) token_json_list (r.1)

  unfoldable pub status : Database L → Str
  status d = Operations.status_text L token_db d

  unfoldable pub close : Database L → Database L
  close d = Operations.close L token_db d

  unfoldable pub is_open : Database L → Bool
  is_open d = Operations.is_open L token_db d

  unfoldable pub key_exists : Str → Database L → Option Bool
  key_exists key d = Operations.key_exists L token_db key d

  unfoldable pub get_value : Str → Database L → Option (Str × Database L)
  get_value key d = Operations.get_value L token_db token_db key d

  unfoldable pub put_value : Str → Str → Database L → Option (Bool × Database L)
  put_value key value d = Operations.put_value L token_db key value d

  unfoldable pub delete_value : Str → Database L → Option (Bool × Database L)
  delete_value key d = Operations.delete_value L token_db key d

  unfoldable pub all_keys : Database L → Option (List Str)
  all_keys d = Operations.all_keys L token_db d

  unfoldable pub all_values : Database L → Option (List Str)
  all_values d = Operations.all_values L token_db d

  unfoldable pub all_pairs : Database L → Option (List (Str × Str))
  all_pairs d = Operations.all_pairs L token_db d

  unfoldable pub delete_all_keys : Database L → Option (Database L)
  delete_all_keys d = Operations.delete_all_keys L token_db d
