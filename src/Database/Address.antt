-- ===== src/Database/Address.antt =====
-- core/Database.cpp, the Address functions.
use avme_wallet.Base.{Str, codes, Bool, Option, List, ◌++◌}
use avme_wallet.Database.{Leveldb, address_db, Database}
use avme_wallet.Database.Operations as Operations

module _ (L : Leveldb) where
  unfoldable pub open_db : Str → Database L → Bool × Database L
  open_db folder d = Operations.open_at L address_db (folder ++ codes "/wallet/c-avax/contacts") d

  unfoldable pub status : Database L → Str
  status d = Operations.status_text L address_db d

  unfoldable pub close : Database L → Database L
  close d = Operations.close L address_db d

  unfoldable pub is_open : Database L → Bool
  is_open d = Operations.is_open L address_db d

  unfoldable pub key_exists : Str → Database L → Option Bool
  key_exists key d = Operations.key_exists L address_db key d

  unfoldable pub get_value : Str → Database L → Option (Str × Database L)
  get_value key d = Operations.get_value L address_db address_db key d

  unfoldable pub put_value : Str → Str → Database L → Option (Bool × Database L)
  put_value key value d = Operations.put_value L address_db key value d

  unfoldable pub delete_value : Str → Database L → Option (Bool × Database L)
  delete_value key d = Operations.delete_value L address_db key d

  unfoldable pub all_keys : Database L → Option (List Str)
  all_keys d = Operations.all_keys L address_db d

  unfoldable pub all_values : Database L → Option (List Str)
  all_values d = Operations.all_values L address_db d

  unfoldable pub all_pairs : Database L → Option (List (Str × Str))
  all_pairs d = Operations.all_pairs L address_db d

  unfoldable pub delete_all_keys : Database L → Option (Database L)
  delete_all_keys d = Operations.delete_all_keys L address_db d
