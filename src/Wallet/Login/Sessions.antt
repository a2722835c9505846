-- ===== src/Wallet/Login/Sessions.antt =====
-- Which passwords a wallet accepts behind a sequence of creations, loadings and closings.
use avme_wallet.Base.{
  if◌then◌else◌, Bool-cases, Str, same, same→eq, ◌≡◌, refl, ◌∙◌, ◌≢◌, inl, inr, Bool, true, false,
  Option, none, some, List, [], ◌∷◌,
}
use avme_wallet.Wallet.Login.{
  create, load, KeyStore, pass_iterations, zero_salt, wallet_file, secrets_folder, Opened,
  nothing_opened, create_files, loaded_with, close, auth,
}

pub data Call : Type 0 where
  -- folder and password
  creating : Str → Str → Call
  -- folder, password and salt
  loading : Str → Str → Str → Call
  closing : Call

-- What a wallet was loaded with.
pub record Key : Type 0 where
  pub folder : Str
  pub pass : Str
  pub salt : Str

module _ (K : KeyStore) where
  unfoldable pub perform : Call → Opened K → K.World → Opened K × K.World
  perform (creating folder pass) o w =
      let ((success, o'), w') = create K folder pass o w in (o', w')
  perform (loading folder pass salt) o w = ((load K folder pass salt o w).1, w)
  perform closing o w = (close K o, w)

  unfoldable pub perform_all : List Call → Opened K → K.World → Opened K × K.World
  perform_all [] o w = (o, w)
  perform_all (c ∷ cs) o w = let (o', w') = perform c o w in perform_all cs o' w'

  abbrev pub opens : K.World → Str → Str → Bool
  opens w folder pass = elim (K.load w (wallet_file folder) (secrets_folder folder) pass) [
    | none ↦ false
    | some km ↦ true
  ]

  -- The last loading that the key store accepted and that was not closed.
  unfoldable pub key_behind : List Call → Option Key → K.World → Option Key
  key_behind [] key w = key
  key_behind (creating folder pass ∷ cs) key w =
      key_behind cs key ((create_files K folder pass w).1)
  key_behind (loading folder pass salt ∷ cs) key w =
      key_behind cs
        (if opens w folder pass
          then some (record { folder = folder; pass = pass; salt = salt })
          else key)
        w
  key_behind (closing ∷ cs) key w = key_behind cs none w

  -- A password is accepted if it has the hash of the one that the wallet was loaded with, under that
  -- loading's salt; without a wallet, none is.
  abbrev pub accepts : Str → Option Key → Bool
  accepts pass none = false
  accepts pass (some key) =
      same (K.pbkdf2 pass key.salt pass_iterations) (K.pbkdf2 key.pass key.salt pass_iterations)

  abbrev Agrees : Opened K → Option Key → Type 0
  Agrees o none = (o.pass_hash ≡ []) × (o.pass_salt ≡ zero_salt)
  Agrees o (some key) =
      (o.pass_salt ≡ key.salt) × (o.pass_hash ≡ K.pbkdf2 key.pass key.salt pass_iterations)

  auth-Agrees :
      ((p salt : Str) → K.pbkdf2 p salt pass_iterations ≢ [])
      → (pass : Str) (o : Opened K) (key : Option Key) → Agrees o key
      → auth K pass o ≡ accepts pass key
  unfolding auth
  auth-Agrees hashed pass o none (no_hash, _) = elim (Bool-cases (auth K pass o)) [
    | inl y ↦ absurd (
        hashed pass o.pass_salt
          (same→eq (K.pbkdf2 pass o.pass_salt pass_iterations) o.pass_hash y ∙ no_hash))
    | inr n ↦ n
  ]
  auth-Agrees hashed pass o (some key) (e_salt, e_hash) = rw (auth, e_salt, e_hash) refl

  kept :
      (b : Bool) (folder : Str) (o : Opened K) (key : Option Key)
      → Agrees o key
      → Agrees (if b then record o { wallet_folder_path = folder } else o) key
  kept true folder o none h = h
  kept true folder o (some key) h = h
  kept false folder o key h = h

  loading-Agrees :
      (folder pass salt : Str) (found : Option K.Manager) (o : Opened K) (key : Option Key)
      → Agrees o key
      → Agrees ((loaded_with K folder pass salt found o).1) (
          if elim found [ none ↦ false | some km ↦ true ]
          then some (record { folder = folder; pass = pass; salt = salt })
          else key)
  loading-Agrees folder pass salt none o key h = h
  loading-Agrees folder pass salt (some km) o key h = (refl, refl)

  perform_all-Agrees :
      (cs : List Call) (o : Opened K) (key : Option Key) (w : K.World)
      → Agrees o key
      → Agrees ((perform_all cs o w).0) (key_behind cs key w)
  unfolding perform_all perform key_behind create load close
  perform_all-Agrees [] o key w h = h
  perform_all-Agrees (creating folder pass ∷ cs) o key w h =
      let (b, w') = create_files K folder pass w in
      perform_all-Agrees cs (if b then record o { wallet_folder_path = folder } else o) key w'
        (kept b folder o key h)
  perform_all-Agrees (loading folder pass salt ∷ cs) o key w h =
      perform_all-Agrees cs ((load K folder pass salt o w).1) _ w (
        loading-Agrees folder pass salt (K.load w (wallet_file folder) (secrets_folder folder) pass)
          o key h)
  perform_all-Agrees (closing ∷ cs) o key w h =
      perform_all-Agrees cs (close K o) none w (refl, refl)

  -- Behind any sequence of creations, loadings and closings, from a wallet that nothing was done with,
  -- the passwords that are accepted are those with the hash of the one of the last loading that the key
  -- store accepted, under that loading's salt, and none if there is no such loading or a closing
  -- came behind it, given that a hash is never empty.
  pub auth-perform_all :
      ((p salt : Str) → K.pbkdf2 p salt pass_iterations ≢ [])
      → (cs : List Call) (pass : Str) (w : K.World)
      → auth K pass ((perform_all cs (nothing_opened K) w).0) ≡ accepts pass (key_behind cs none w)
  unfolding nothing_opened
  auth-perform_all hashed cs pass w =
      auth-Agrees hashed pass ((perform_all cs (nothing_opened K) w).0) (key_behind cs none w)
        (perform_all-Agrees cs (nothing_opened K) none w (refl, refl))
