-- ===== src/Database.antt =====
-- core/Database.cpp and core/Database.h: six LevelDB databases, each with a handle, the status of the
-- last operation and the last value read. LevelDB is a parameter; `none` is an operation through a
-- handle that is NULL.
pub mod Operations
pub mod Token
pub mod History
pub mod Ledger
pub mod App
pub mod Address
pub mod Config
pub mod Laws
pub mod Storage
pub mod Clearing
pub mod Seeding
use avme_wallet.Base.{Str, Bool, true, false, Option, none, List, []}

pub data Status : Type 0 where
  ok : Status
  failed : Str → Status

pub data Found : Type 0 where
  found : Str → Found
  missing : Str → Found

-- The file system with the databases on it, each under its path.
pub record Leveldb : Type 1 where
  pub Disk : Type 0
  pub create_directories : Disk → Str → Disk
  pub remove_regular_file : Disk → Str → Disk
  -- DB::Open with create_if_missing
  pub open_path : Disk → Str → Status × Disk
  pub get : Disk → Str → Str → Found
  pub put : Disk → Str → Str → Str → Status × Disk
  pub delete : Disk → Str → Str → Status × Disk
  -- what an iterator made now walks through
  pub entries : Disk → Str → List (Str × Str)
  pub to_string : Status → Str

pub data Table : Type 0 where
  token_db : Table
  history_db : Table
  ledger_db : Table
  app_db : Table
  address_db : Table
  config_db : Table

-- The pointer to an open database is the path that it was opened at.
pub record Handle : Type 0 where
  pub db : Option Str
  pub status : Status
  pub value : Str

-- The six groups of members, by their table.
pub record Database (L : Leveldb) : Type 0 where
  pub disk : L.Disk
  pub handles : Table → Handle

abbrev pub same_table : Table → Table → Bool
same_table token_db token_db = true
same_table history_db history_db = true
same_table ledger_db ledger_db = true
same_table app_db app_db = true
same_table address_db address_db = true
same_table config_db config_db = true
same_table _ _ = false

abbrev pub closed : Handle
closed = record { db = none; status = ok; value = [] }

-- The constructor: every pointer is NULL.
unfoldable pub new_database : (L : Leveldb) → L.Disk → Database L
new_database L disk = record { disk = disk; handles = λ t. closed }
