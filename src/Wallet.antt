-- ===== src/Wallet.antt =====
-- core/Wallet.cpp over core/Database.cpp. `none` is an exception, of json or of a parameter, or a
-- database function called while its database is closed.
pub mod Tokens
pub mod Stores
pub mod History
pub mod Accounts
pub mod Passwords
pub mod Sending
pub mod Login
use avme_wallet.Base.{Str, ℕ, List}
use avme_wallet.Database.{Leveldb, Database}

-- core/Utils.h; what is not stored is left out.
pub record Arc20Token : Type 0 where
  pub address : Str
  pub symbol : Str
  pub name : Str
  pub decimals : ℕ
  pub avax_pair_contract : Str

-- The members that the functions over the databases read and write.
pub record Wallet (L : Leveldb) : Type 0 where
  pub db : Database L
  pub arc20_tokens : List Arc20Token
