-- ===== src/Wallet/Login.antt =====
-- core/Wallet.cpp, creating, loading and closing a wallet, and the test of a password. The key manager of
-- ethcore with its files, and dev::pbkdf2, are parameters; the random salt is given.
pub mod Sessions
use avme_wallet.Base.{
  if◌then◌else◌, replicate, Str, codes, same, ℕ, Bool, true, false, not, Option, none, some, List,
  [], ◌++◌,
}
use avme_wallet.Wallet.History.{TxData}

pub record KeyStore : Type 1 where
  pub World : Type 0
  pub Manager : Type 0
  pub no_manager : Manager
  pub path_exists : World → Str → Bool
  pub create_directories : World → Str → World
  -- the file, the folder of the secrets and the password; `none` is the exception
  pub create : World → Str → Str → Str → Option World
  pub load : World → Str → Str → Str → Option Manager
  -- KeyManager::exists, whether the manager's file is there
  pub exists : World → Manager → Bool
  -- the password, the salt and the number of iterations
  pub pbkdf2 : Str → Str → ℕ → Str

abbrev pub pass_iterations : ℕ
pass_iterations = 100000

-- A salt of the type h256 that was not set.
abbrev pub zero_salt : Str
zero_salt = replicate 32 0

abbrev pub wallet_file : Str → Str
wallet_file folder = folder ++ codes "/wallet/c-avax/wallet.info"

abbrev pub secrets_folder : Str → Str
secrets_folder folder = folder ++ codes "/wallet/c-avax/accounts/secrets"

abbrev pub history_folder : Str → Str
history_folder folder = folder ++ codes "/wallet/c-avax/accounts/transactions"

module _ (K : KeyStore) where
  -- The members that these functions set, and Utils::walletFolderPath.
  pub record Opened : Type 0 where
    pub km : K.Manager
    pub pass_salt : Str
    pub pass_hash : Str
    pub wallet_folder_path : Str
    pub current_account : Str × Str
    pub current_account_history : List TxData
    pub accounts : List (Str × Str)
    pub ledger_accounts : List (Str × Str)

  unfoldable pub nothing_opened : Opened
  nothing_opened = record {
    km = K.no_manager;
    pass_salt = zero_salt;
    pass_hash = [];
    wallet_folder_path = [];
    current_account = ([], []);
    current_account_history = [];
    accounts = [];
    ledger_accounts = [];
  }

  abbrev pub with_directories : Str → K.World → K.World
  with_directories path w = if not (K.path_exists w path) then K.create_directories w path else w

  -- The folders are made where they are not there, and then the key store.
  unfoldable pub create_files : Str → Str → K.World → Bool × K.World
  create_files folder pass w =
      let w₁ = with_directories (folder ++ codes "/wallet/c-avax") w in
      let w₂ = with_directories (secrets_folder folder) w₁ in
      let w₃ = with_directories (history_folder folder) w₂ in
      elim (K.create w₃ (wallet_file folder) (secrets_folder folder) pass) [
        | none ↦ (false, w₃)
        | some w₄ ↦ (true, w₄)
      ]

  -- Nothing is loaded.
  unfoldable pub create : Str → Str → Opened → K.World → (Bool × Opened) × K.World
  create folder pass o w =
      let (created, w') = create_files folder pass w in
      ((created, if created then record o { wallet_folder_path = folder } else o), w')

  abbrev pub loaded_with : Str → Str → Str → Option K.Manager → Opened → Bool × Opened
  loaded_with folder pass salt none o = (false, o)
  loaded_with folder pass salt (some km) o = (
    true,
    record o {
      km = km;
      pass_salt = salt;
      pass_hash = K.pbkdf2 pass salt pass_iterations;
      wallet_folder_path = folder;
    },
  )

  unfoldable pub load : Str → Str → Str → Opened → K.World → Bool × Opened
  load folder pass salt o w =
      loaded_with folder pass salt (K.load w (wallet_file folder) (secrets_folder folder) pass) o

  unfoldable pub close : Opened → Opened
  close o = record o {
    current_account = ([], []);
    current_account_history = [];
    accounts = [];
    ledger_accounts = [];
    pass_hash = [];
    pass_salt = zero_salt;
    km = K.no_manager;
    wallet_folder_path = [];
  }

  unfoldable pub is_loaded : Opened → K.World → Bool
  is_loaded o w = K.exists w o.km

  unfoldable pub auth : Str → Opened → Bool
  auth pass o = same (K.pbkdf2 pass o.pass_salt pass_iterations) o.pass_hash
