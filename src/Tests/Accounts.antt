-- ===== src/Tests/Accounts.antt =====
-- core/Wallet.cpp, the accounts, at a key store of two keys, the second without an address.
use avme_wallet.Base.{
  if◌then◌else◌, Str, codes, same, is_empty, ◌≡◌, ◌↔◌, true, none, some, List, [], ◌∷◌, ◌++◌,
}
use avme_wallet.Wallet.Accounts.{Keys, State, load_accounts, account_exists}
use avme_wallet.Wallet.Accounts.Loaded.{IsKeyOf, account_exists-load_accounts}

abbrev pub two_keys : Keys
two_keys = record {
  Manager = List Str;
  Address = Str;
  Secret = Str;
  keys = λ km. km;
  address_of = λ km u. if same u (codes "u2") then none else some (codes "ab");
  account_name = λ km a. codes "Savings";
  accounts = λ km. codes "ab" ∷ [];
  address_text = λ a. a;
  import_secret = λ km secret name pass. secret ∷ km;
  kill = λ km a. [];
  from_uuid = λ s. none;
  to_address = λ s. some s;
  is_zero = is_empty;
  zero_address = [];
  zero_secret = [];
  secret_of_hex = λ s. some s;
  address_of_secret = λ secret. secret;
  secret_at = λ km a pass. some a;
  secret_of_key = λ km u pass. some u;
  load_encrypted_mnemonic = λ pass. none;
  create_key = λ raw path. raw;
}

abbrev pub stored : State two_keys
stored = record { km = codes "u1" ∷ codes "u2" ∷ []; accounts = []; current_account = ([], []) }

account_exists-load_accounts_example :
    (account_exists two_keys (codes "0xab") (load_accounts two_keys stored) ≡ true) ↔ (
      (front rest : List Str) × (u : Str) × (codes "u1" ∷ codes "u2" ∷ [] ≡ front ++ u ∷ rest)
      × IsKeyOf two_keys (codes "u1" ∷ codes "u2" ∷ []) (codes "0xab") u)
account_exists-load_accounts_example = account_exists-load_accounts two_keys (codes "0xab") stored
