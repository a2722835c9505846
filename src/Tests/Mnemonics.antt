-- ===== src/Tests/Mnemonics.antt =====
-- core/BIP39.cpp at concrete inputs.
use avme_wallet.Base.{
  ◌==◌, take, All, Str, codes, ◌+◌, ◌-◌, ◌≡◌, refl, sym, ap, subst, ◌≢◌, Bool, true, false, Option,
  none, some, [], ◌∷◌, arith,
}
use avme_wallet.Utils.Json.{JsonObject, field}
use avme_wallet.Seeds.{
  Result, ok, error, Written, stored, unseen, Cipher, Files, salt_bytes, error_object, seed_object,
  write_json_file, report, save_encrypted_mnemonic, load_encrypted_mnemonic,
}
use avme_wallet.Seeds.Stored.{FileLaws, CipherLaws, load_encrypted_mnemonic-save}
use avme_wallet.Tests.Objects.{print_object, objects, objects-JsonLaws}

-- A cipher that moves every byte, and refuses the empty password.
abbrev moved : Str → Str
moved [] = []
moved (c ∷ s) = (33 + c) ∷ moved s

abbrev moved_back : Str → Str
moved_back [] = []
moved_back (c ∷ s) = (c - 33) ∷ moved_back s

abbrev cipher_with : (Str → Str) → Str → Str → Str → Result Str
cipher_with f s [] salt = error (codes "password")
cipher_with f s (p ∷ password) salt = ok (f s)

abbrev mover : Cipher
mover = record {
  encrypt = cipher_with moved;
  decrypt = cipher_with moved_back;
  digest_hex = λ s. s;
  type_error = codes "type";
}

moved_back-moved : (s : Str) → moved_back (moved s) ≡ s
moved_back-moved [] = refl
moved_back-moved (c ∷ s) = let e : 33 + c - 33 ≡ c = omega arith in rw (e, moved_back-moved s) refl

moved_no_space : (s : Str) → All (λ b. (b == b' ') ≡ false) (moved s)
moved_no_space [] = tt
moved_no_space (c ∷ s) = (ground arith, moved_no_space s)

ok_inj : (s t : Str) → ok s ≡ ok t → s ≡ t
ok_inj s t e = cc

decrypt-encrypt :
    (raw password salt e : Str)
    → cipher_with moved raw password salt ≡ ok e
    → cipher_with moved_back e password salt ≡ ok raw
decrypt-encrypt raw [] salt e h = cc
decrypt-encrypt raw (p ∷ password) salt e h =
    rw (sym (ok_inj (moved raw) e h)) (ap ok (moved_back-moved raw))

encrypt_no_space :
    (raw password salt e : Str)
    → cipher_with moved raw password salt ≡ ok e
    → All (λ b. (b == b' ') ≡ false) e
encrypt_no_space raw [] salt e h = cc
encrypt_no_space raw (p ∷ password) salt e h =
    rw (sym (ok_inj (moved raw) e h)) (moved_no_space raw)

mover-CipherLaws : CipherLaws mover
mover-CipherLaws = record { decrypt-encrypt = decrypt-encrypt; encrypt_no_space = encrypt_no_space }

-- One file, whatever the path, which is opened for writing only once.
abbrev read_file : Option JsonObject → Result JsonObject
read_file none = error (codes "no file")
read_file (some o) = ok o

abbrev file_exists : Option JsonObject → Bool
file_exists none = false
file_exists (some o) = true

abbrev write_once : Option JsonObject → JsonObject → Written × Option JsonObject
write_once none o = (stored, some o)
write_once (some first) o = (unseen, some first)

abbrev one_file : Files
one_file = record {
  World = Option JsonObject;
  exists = λ w path. file_exists w;
  read = λ w path. read_file w;
  write = λ w path o. write_once w o;
}

not_empty_text : (what : Str) → objects.dump (error_object what) ≢ some []
unfolding print_object
not_empty_text what e = cc

abbrev IsReadBack : JsonObject → Option JsonObject → Type 0
IsReadBack o w =
    (file_exists w ≡ true)
    × (o' : JsonObject) × (s : Str) × (read_file w ≡ ok o')
    × (objects.dump o' ≡ some s)
    × ((key : Str) → field key o' ≡ field key o)

write_once-IsReadBack :
    (w w' : Option JsonObject) (o : JsonObject) → write_once w o ≡ (stored, w') → IsReadBack o w'
write_once-IsReadBack none w' o e =
    subst (IsReadBack o) (ap (λ x. x.1) e) (refl, o, _, refl, refl, λ key. refl)
write_once-IsReadBack (some first) w' o e = cc

one_file-FileLaws : FileLaws one_file objects
one_file-FileLaws = record {
  read-write = λ w w' path o e. write_once-IsReadBack w w' o e;
  dump_not_empty = λ what e. not_empty_text what e;
}

abbrev phrase : Str
phrase = codes "abandon ability able"

abbrev saved : Option JsonObject
saved = some (seed_object (moved phrase) (take salt_bytes (codes "salt")))

load_encrypted_mnemonic-save_example :
    load_encrypted_mnemonic one_file objects mover (codes "/home") (codes "pass") [] saved
    ≡ some ((true, []), phrase)
unfolding save_encrypted_mnemonic write_json_file report
load_encrypted_mnemonic-save_example =
    load_encrypted_mnemonic-save one_file objects one_file-FileLaws objects-JsonLaws mover
      mover-CipherLaws (codes "/home") (codes "salt") phrase (codes "pass") [] none saved
      (λ o e. cc) refl
