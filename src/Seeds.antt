-- ===== src/Seeds.antt =====
-- core/BIP39.cpp, the mnemonic that is stored encrypted, and the JSON files of core/Utils.cpp that it
-- is stored in. The cipher, the file system and the texts of the exceptions are parameters.
pub mod Stored
use avme_wallet.Base.{
  ◌==◌, if◌then◌else◌, ◌>>=◌, take, Str, codes, ℕ, Bool, true, false, not, Option, none, some, [],
  ◌∷◌, ◌++◌,
}
use avme_wallet.Utils.Json.{text, JsonObject, text_field, Json}

-- A value, or what() of the exception.
pub data Result {ℓ} (A : Type ℓ) : Type ℓ where
  ok : A → Result A
  error : Str → Result A

-- What becomes of a write to a stream: it is on the disk, or the opening or the writing failed, which
-- the stream keeps to itself, or an exception leaves it, with its what().
pub data Written : Type 0 where
  stored : Written
  unseen : Written
  thrown : Str → Written

-- aes-256-cbc with sha256 of core/Cipher.cpp.
pub record Cipher : Type 0 where
  -- text, password and salt
  pub encrypt : Str → Str → Str → Result Str
  pub decrypt : Str → Str → Str → Result Str
  -- toHex(dev::sha3(…))
  pub digest_hex : Str → Str
  -- what() where a member is no text
  pub type_error : Str

pub record Files : Type 1 where
  pub World : Type 0
  pub exists : World → Str → Bool
  pub read : World → Str → Result JsonObject
  pub write : World → Str → JsonObject → Written × World

-- boost::replace_all of one byte.
abbrev pub replace_byte : ℕ → ℕ → Str → Str
replace_byte a b [] = []
replace_byte a b (c ∷ s) = let rest = replace_byte a b s in if c == a then b ∷ rest else c ∷ rest

abbrev pub seed_path : Str
seed_path = codes "/wallet/c-avax/seed.json"

abbrev pub salt_bytes : ℕ
salt_bytes = 8

abbrev pub error_object : Str → JsonObject
error_object what = (codes "ERROR", text what) ∷ []

-- What is written: cipher text on one line, and the salt.
abbrev pub seed_object : Str → Str → JsonObject
seed_object encrypted_phrase salt =
    (codes "seed", text (replace_byte b'\n' b' ' encrypted_phrase)) ∷ (codes "salt", text salt) ∷ []

-- The encrypted phrase and the salt.
unfoldable pub stored_seed : JsonObject → Option (Str × Str)
stored_seed seed_json = do
  seed ← text_field (codes "seed") seed_json
  salt ← text_field (codes "salt") seed_json
  some (seed, salt)

module _ (F : Files) (j : Json) where
  -- The lock around the body is released on every branch.
  unfoldable pub read_json_file : Str → F.World → Option Str
  read_json_file path w =
      if not (F.exists w path)
      then j.dump (error_object (codes "FILE DOES NOT EXIST"))
      else elim (F.read w path) [ ok o ↦ j.dump o | error what ↦ j.dump (error_object what) ]

  -- The empty text is success; the state of the stream is not read.
  unfoldable pub write_json_file : Str → JsonObject → F.World → Option (Str × F.World)
  write_json_file path o w =
      let (failure, w') = F.write w path o in
      elim failure [
        | stored ↦ some ([], w')
        | unseen ↦ some ([], w')
        | thrown what ↦ do e ← j.dump (error_object what); some (e, w')
      ]

  -- The report of the write is parsed where it is not empty.
  unfoldable pub report : Str → Option (Bool × Str)
  report [] = some (true, [])
  report (c ∷ success) = do
    json_err ← j.parse (c ∷ success)
    what ← text_field (codes "ERROR") json_err
    some (false, codes "Error happened when writing JSON file: " ++ what)

  -- `random` are the bytes of the random device, `raw` the phrase.
  unfoldable pub save_encrypted_mnemonic :
      Cipher → Str → Str → Str → Str → F.World → Option ((Bool × Str) × F.World)
  save_encrypted_mnemonic c folder random raw password w =
      let salt = take salt_bytes (c.digest_hex random) in
      elim (c.encrypt raw password salt) [
        | error what ↦ some ((false, codes "Error when encrypting: " ++ what), w)
        | ok encrypted_phrase ↦ do
          (success, w') ←
              write_json_file (folder ++ seed_path) (seed_object encrypted_phrase salt) w
          result ← report success
          some (result, w')
      ]

  -- The phrase before it, and the result with the phrase behind it. A wrong password is reported with
  -- `true`, as the code has it.
  unfoldable pub decrypt_seed : Cipher → Str → JsonObject → Str → (Bool × Str) × Str
  decrypt_seed c password seed_json raw = elim (stored_seed seed_json) [
    | none ↦ ((false, codes "Error happened when reading JSON to string: " ++ c.type_error), raw)
    | some found ↦ elim (c.decrypt (replace_byte b' ' b'\n' (found.0)) password (found.1)) [
      | ok phrase ↦ ((true, []), phrase)
      | error what ↦
          ((true, codes "Error happened when decrypting, perhaps wrong password? " ++ what), raw)
    ]
  ]

  unfoldable pub load_encrypted_mnemonic :
      Cipher → Str → Str → Str → F.World → Option ((Bool × Str) × Str)
  load_encrypted_mnemonic c folder password raw w = do
    contents ← read_json_file (folder ++ seed_path) w
    seed_json ← j.parse contents
    some (elim (text_field (codes "ERROR") seed_json) [
      | some what ↦ ((false, codes "Error happened when reading JSON file: " ++ what), raw)
      | none ↦ decrypt_seed c password seed_json raw
    ])

  -- QmlSystem::getWalletSeed starts with an empty phrase.
  unfoldable pub get_wallet_seed : Cipher → Str → Str → F.World → Option Str
  get_wallet_seed c folder pass w = do
    (result, raw) ← load_encrypted_mnemonic c folder pass [] w
    some (if result.0 then raw else [])
