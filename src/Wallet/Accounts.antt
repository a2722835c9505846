-- ===== src/Wallet/Accounts.antt =====
-- core/Wallet.cpp, the accounts over the key manager of ethcore, which is a parameter. The zero address
-- and the zero identifier, which test as false, are `none`.
pub mod Loaded
use avme_wallet.Base.{
  if◌then◌else◌, ◌>>=◌, Str, codes, same, is_empty, ℕ, Bool, true, false, ◌&&◌, not, Option, none,
  some, List, [], ◌∷◌, ◌++◌,
}
use avme_wallet.Utils.Casts.{Casts}

pub record Keys : Type 1 where
  pub Manager : Type 0
  pub Address : Type 0
  pub Secret : Type 0
  pub keys : Manager → List Str
  pub address_of : Manager → Str → Option Address
  pub account_name : Manager → Address → Str
  pub accounts : Manager → List Address
  pub address_text : Address → Str
  pub import_secret : Manager → Secret → Str → Str → Manager
  pub kill : Manager → Address → Manager
  pub from_uuid : Str → Option Str
  -- toAddress; `none` is its exception
  pub to_address : Str → Option Address
  pub is_zero : Address → Bool
  pub zero_address : Address
  pub zero_secret : Secret
  pub secret_of_hex : Str → Option Secret
  pub address_of_secret : Secret → Address
  pub secret_at : Manager → Address → Str → Option Secret
  pub secret_of_key : Manager → Str → Str → Option Secret
  -- BIP39: the stored seed under a password, and the secret key of a seed at a path
  pub load_encrypted_mnemonic : Str → Option Str
  pub create_key : Str → Str → Secret

-- std::map<std::string, std::string>
abbrev pub find : Str → List (Str × Str) → Option Str
find key [] = none
find key ((k, v) ∷ m) = let rest = find key m in if same k key then some v else rest

abbrev pub has : Str → List (Str × Str) → Bool
has key m = elim (find key m) [ none ↦ false | some v ↦ true ]

abbrev pub emplace : Str → Str → List (Str × Str) → List (Str × Str)
emplace key value m = if has key m then m else m ++ (key, value) ∷ []

module _ (K : Keys) where
  pub record State : Type 0 where
    pub km : K.Manager
    pub accounts : List (Str × Str)
    pub current_account : Str × Str

  -- The loop over the keys of the store; those without an address are left out.
  unfoldable pub load_keys : K.Manager → List Str → List (Str × Str) → List (Str × Str)
  load_keys km [] m = m
  load_keys km (u ∷ keys) m = elim (K.address_of km u) [
    | none ↦ load_keys km keys m
    | some a ↦ load_keys km keys (emplace (codes "0x" ++ K.address_text a) (K.account_name km a) m)
  ]

  unfoldable pub load_accounts : State → State
  load_accounts s = record s { accounts = load_keys s.km (K.keys s.km) [] }

  unfoldable pub account_exists : Str → State → Bool
  account_exists account s = has account s.accounts

  -- The first name that matches, or the zero address.
  unfoldable pub address_of_name : K.Manager → Str → List K.Address → K.Address
  address_of_name km input [] = K.zero_address
  address_of_name km input (a ∷ more) =
      let rest = address_of_name km input more in
      if same (K.account_name km a) input then a else rest

  -- An identifier of no account gives the zero address.
  unfoldable pub user_to_address : Str → State → K.Address
  user_to_address input s = elim (K.from_uuid input) [
    | some u ↦ elim (K.address_of s.km u) [ none ↦ K.zero_address | some a ↦ a ]
    | none ↦ elim (K.to_address input) [
      | some a ↦ a
      | none ↦ address_of_name s.km input (K.accounts s.km)
    ]
  ]

  unfoldable pub erase_account : Str → State → Bool × State
  erase_account account s =
      if account_exists account s
      then (true, load_accounts (record s { km = K.kill s.km (user_to_address account s) }))
      else (false, s)

  pub set_current_account : Str → State → State
  set_current_account account s = elim (find account s.accounts) [
    | none ↦ s
    | some name ↦ record s { current_account = (account, name) }
  ]

  pub has_account_set : State → Bool
  has_account_set s = not (is_empty (s.current_account.0)) && not (is_empty (s.current_account.1))

  -- The account of a seed, which is the given one or, if that is empty, the stored one. The second
  -- component is what the function returns.
  pub create_account : Casts → Str → ℕ → Str → Str → State → State × (Str × Str)
  create_account c seed index name pass s =
      elim (if is_empty seed then K.load_encrypted_mnemonic pass else some seed) [
        | none ↦ (s, ([], []))
        | some raw ↦
            let secret = K.create_key raw (codes "m/44'/60'/0'/0/" ++ c.text index) in
            (
              load_accounts (record s { km = K.import_secret s.km secret name pass }),
              (K.address_text (K.address_of_secret secret), name),
            )
      ]

  pub create_account_of_key : Str → Str → Str → State → Option (State × (Str × Str))
  create_account_of_key priv_key name pass s = do
    secret ← K.secret_of_hex priv_key
    some (
      load_accounts (record s { km = K.import_secret s.km secret name pass }),
      (K.address_text (K.address_of_secret secret), name),
    )

  pub private_key_exists : Str → State → Option Bool
  private_key_exists priv_key s = do
    secret ← K.secret_of_hex priv_key
    some (account_exists (codes "0x" ++ K.address_text (K.address_of_secret secret)) s)

  -- The address that a secret is looked up by: the text's, or that of the first account so named.
  pub address_of_text : Str → State → K.Address
  address_of_text account s = elim (K.to_address account) [
    | some a ↦ a
    | none ↦ address_of_name s.km account (K.accounts s.km)
  ]

  -- An unknown account gives the zero secret.
  pub get_secret : Str → Str → State → Option K.Secret
  get_secret account pass s = elim (K.from_uuid account) [
    | some u ↦ K.secret_of_key s.km u pass
    | none ↦
        let a = address_of_text account s in
        if not (K.is_zero a) && account_exists (codes "0x" ++ K.address_text a) s
        then K.secret_at s.km a pass
        else some K.zero_secret
  ]
