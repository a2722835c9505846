-- ===== src/Database/History.antt =====
-- core/Database.cpp, the History functions.
use avme_wallet.Base.{Str, codes, Bool, Option, List, ◌++◌}
use avme_wallet.Database.{Leveldb, token_db, history_db, Database}
use avme_wallet.Database.Operations as Operations

module _ (L : Leveldb) where
  -- A regular file at the path is an old history, and is removed.
  unfoldable pub open_db : Str → Str → Database L → Bool × Database L
  open_db folder account d =
      let path = folder ++ codes "/wallet/c-avax/accounts/transactions/" ++ account in
      Operations.open_at L history_db path (record d { disk = L.remove_regular_file d.disk path })

  unfoldable pub status : Database L → Str
  status d = Operations.status_text L history_db d

  unfoldable pub close : Database L → Database L
  close d = Operations.close L history_db d

  unfoldable pub is_open : Database L → Bool
  is_open d = Operations.is_open L history_db d

  unfoldable pub key_exists : Str → Database L → Option Bool
  key_exists key d = Operations.key_exists L history_db key d

  -- The read goes to the token database.
  unfoldable pub get_value : Str → Database L → Option (Str × Database L)
  get_value key d = Operations.get_value L history_db token_db key d

  unfoldable pub put_value : Str → Str → Database L → Option (Bool × Database L)
  put_value key value d = Operations.put_value L history_db key value d

  unfoldable pub delete_value : Str → Database L → Option (Bool × Database L)
  delete_value key d = Operations.delete_value L history_db key d

  unfoldable pub all_keys : Database L → Option (List Str)
  all_keys d = Operations.all_keys L history_db d

  unfoldable pub all_values : Database L → Option (List Str)
  all_values d = Operations.all_values L history_db d

  unfoldable pub all_pairs : Database L → Option (List (Str × Str))
  all_pairs d = Operations.all_pairs L history_db d

  unfoldable pub delete_all_keys : Database L → Option (Database L)
  delete_all_keys d = Operations.delete_all_keys L history_db d
