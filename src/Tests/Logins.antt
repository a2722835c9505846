-- ===== src/Tests/Logins.antt =====
-- core/Wallet.cpp, loading and closing a wallet, at concrete inputs.
use avme_wallet.Base.{
  if◌then◌else◌, Str, codes, same, ◌≡◌, refl, ◌≢◌, Bool, true, false, none, some, List, [], ◌∷◌,
  ◌++◌,
}
use avme_wallet.Wallet.Login.{KeyStore, pass_iterations, nothing_opened, create_files, auth}
use avme_wallet.Wallet.Login.Sessions.{
  Call, creating, loading, perform_all, key_behind, accepts, auth-perform_all,
}

-- A key store with one password, the last one that it was created with.
abbrev store : KeyStore
store = record {
  World = Str;
  Manager = Bool;
  no_manager = false;
  path_exists = λ w path. true;
  create_directories = λ w path. w;
  create = λ w file secrets pass. some pass;
  load = λ w file secrets pass. if same w pass then some true else none;
  exists = λ w km. km;
  pbkdf2 = λ pass salt rounds. 1 ∷ (salt ++ pass);
}

abbrev home : Str
home = codes "/home"

-- A wallet is made and loaded; a loading with another password fails and changes nothing.
abbrev opened_calls : List Call
opened_calls =
    creating home (codes "secret")
    ∷ loading home (codes "secret") (5 ∷ [])
    ∷ loading home (codes "guess") (6 ∷ [])
    ∷ []

not_empty_hash : (p salt : Str) → store.pbkdf2 p salt pass_iterations ≢ []
not_empty_hash p salt e = cc

auth-perform_all_example :
    auth store (codes "secret") ((perform_all store opened_calls (nothing_opened store) []).0)
    ≡ accepts store (codes "secret") (key_behind store opened_calls none [])
auth-perform_all_example = auth-perform_all store not_empty_hash opened_calls (codes "secret") []

accepted : accepts store (codes "secret") (key_behind store opened_calls none []) ≡ true
unfolding key_behind create_files
accepted = refl

refused : accepts store (codes "guess") (key_behind store opened_calls none []) ≡ false
unfolding key_behind create_files
refused = refl
