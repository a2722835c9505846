-- ===== src/Seeds/Stored.antt =====
-- What a stored mnemonic is loaded to.
use avme_wallet.Base.{
  ◌==◌, Bool-cases, bind-eq-some, some_inj, take, All, Str, codes, ℕ, ◌≡◌, refl, sym, ap, ◌∙◌,
  subst, ◌≢◌, ◌⊎◌, inl, inr, true, false, none, some, [], ◌∷◌, ◌++◌, arith,
}
use avme_wallet.Utils.Json.{JsonObject, field, text_field, Json, JsonLaws}
use avme_wallet.Seeds.{
  Result, ok, error, Written, stored, unseen, thrown, Cipher, Files, replace_byte, seed_path,
  salt_bytes, error_object, seed_object, stored_seed, read_json_file, write_json_file, report,
  save_encrypted_mnemonic, decrypt_seed, load_encrypted_mnemonic,
}

-- What is relied on of the files and of the cipher, whose texts are base64.
pub record FileLaws (F : Files) (j : Json) : Type 0 where
  pub read-write :
      (w w' : F.World) (path : Str) (o : JsonObject)
      → F.write w path o ≡ (stored, w')
      → (F.exists w' path ≡ true)
        × (o' : JsonObject) × (s : Str) × (F.read w' path ≡ ok o')
        × (j.dump o' ≡ some s)
        × ((key : Str) → field key o' ≡ field key o)
  pub dump_not_empty : (what : Str) → j.dump (error_object what) ≢ some []

pub Written-cases : (r : Written) → r ≢ unseen → (r ≡ stored) ⊎ ((what : Str) × (r ≡ thrown what))
Written-cases stored ne = inl refl
Written-cases unseen ne = absurd (ne refl)
Written-cases (thrown what) ne = inr (what, refl)

pub record CipherLaws (c : Cipher) : Type 0 where
  pub decrypt-encrypt :
      (raw password salt e : Str)
      → c.encrypt raw password salt ≡ ok e
      → c.decrypt e password salt ≡ ok raw
  pub encrypt_no_space :
      (raw password salt e : Str)
      → c.encrypt raw password salt ≡ ok e
      → All (λ b. (b == b' ') ≡ false) e

Result-cases : (r : Result Str) → ((s : Str) × (r ≡ ok s)) ⊎ ((what : Str) × (r ≡ error what))
Result-cases (ok s) = inl (s, refl)
Result-cases (error what) = inr (what, refl)

replace_byte_back :
    (s : Str)
    → All (λ b. (b == b' ') ≡ false) s
    → replace_byte b' ' b'\n' (replace_byte b'\n' b' ' s) ≡ s
replace_byte_back [] h = refl
replace_byte_back (c ∷ s) (h, hs) = elim (Bool-cases (c == b'\n')) [
  | inl y ↦ let e : c ≡ b'\n' = ground arith in rw (e, replace_byte_back s hs) refl
  | inr n ↦ rw (n, h, replace_byte_back s hs) refl
]

module _ (F : Files) (j : Json) where
  -- What a successful save has written.
  abbrev IsSaved : Cipher → Str → Str → Str → Str → F.World → Type 0
  IsSaved c folder raw password salt w' =
      (e : Str) × (contents : Str) × (o : JsonObject) × (c.encrypt raw password salt ≡ ok e)
      × (read_json_file F j (folder ++ seed_path) w' ≡ some contents)
      × (j.parse contents ≡ some o)
      × (text_field (codes "ERROR") o ≡ none)
      × (stored_seed o ≡ some (replace_byte b'\n' b' ' e, salt))

  report_false : (c : ℕ) (s : Str) → report F j (c ∷ s) ≢ some (true, [])
  unfolding report
  report_false c s h =
      let (o, _, e) = bind-eq-some (j.parse (c ∷ s)) _ h in
      let (what, _, e') = bind-eq-some (text_field (codes "ERROR") o) _ e in
      let bad : false ≡ true = ap (λ r. r.0) (some_inj e') in cc

  not_empty :
      FileLaws F j
      → (what s r : Str) → j.dump (error_object what) ≡ some s
      → s ≡ r
      → report F j r ≢ some (true, [])
  not_empty laws what [] r e_dump same_text h = laws.dump_not_empty what e_dump
  not_empty laws what (c ∷ s) r e_dump same_text h =
      report_false c s (subst (λ x. report F j x ≡ some (true, [])) (sym same_text) h)

  write_json_file-success :
      FileLaws F j
      → (path : Str) (o : JsonObject) (w w' : F.World) (r : Str) → (F.write w path o).0 ≢ unseen
      → write_json_file F j path o w ≡ some (r, w')
      → report F j r ≡ some (true, [])
      → F.write w path o ≡ (stored, w')
  unfolding write_json_file
  write_json_file-success laws path o w w' r seen e h =
      elim (Written-cases ((F.write w path o).0) seen) [
        | inl e0 ↦
            let e1 = ap (λ x. x.1) (some_inj (rw (e0, write_json_file) at e)) in
            ap (λ x. (x, (F.write w path o).1)) e0 ∙ ap (λ x. (stored, x)) e1
        | inr (what, e0) ↦
            let (s, e_dump, e2) =
              bind-eq-some (j.dump (error_object what)) _ (rw (e0, write_json_file) at e) in
            absurd (not_empty laws what s r e_dump (ap (λ x. x.0) (some_inj e2)) h)
      ]

  written-IsSaved :
      FileLaws F j
      → JsonLaws j
      → (c : Cipher) (folder raw password salt e : Str) (w w' : F.World)
      → c.encrypt raw password salt ≡ ok e
      → F.write w (folder ++ seed_path) (seed_object e salt) ≡ (stored, w')
      → IsSaved c folder raw password salt w'
  unfolding read_json_file stored_seed
  written-IsSaved laws json_laws c folder raw password salt e w w' e_enc e_write =
      let (there, o', s, e_read, e_dump, members) =
        laws.read-write w w' (folder ++ seed_path) _ e_write in
      let (o, e_parse, same_members) = json_laws.parse-dump o' s e_dump in
      let member : (key : Str) → field key o ≡ field key (seed_object e salt) =
        λ key. same_members key ∙ members key in
      (
        e,
        s,
        o,
        e_enc,
        rw (there, e_read, read_json_file) e_dump,
        e_parse,
        rw (member (codes "ERROR")) refl,
        rw (member (codes "seed"), member (codes "salt"), stored_seed) refl,
      )

  save-IsSaved :
      FileLaws F j
      → JsonLaws j
      → (c : Cipher) (folder random raw password : Str) (w w' : F.World)
      → ((o : JsonObject) → (F.write w (folder ++ seed_path) o).0 ≢ unseen)
      → save_encrypted_mnemonic F j c folder random raw password w ≡ some ((true, []), w')
      → IsSaved c folder raw password (take salt_bytes (c.digest_hex random)) w'
  unfolding save_encrypted_mnemonic
  save-IsSaved laws json_laws c folder random raw password w w' seen e =
      let salt : Str = take salt_bytes (c.digest_hex random) in
      elim (Result-cases (c.encrypt raw password salt)) [
        | inl (enc, e_enc) ↦
            let ((success, w1), e_write, e1) =
              bind-eq-some (write_json_file F j (folder ++ seed_path) (seed_object enc salt) w) _
                (rw (e_enc, save_encrypted_mnemonic) at e) in
            let (result, e_report, e2) = bind-eq-some (report F j success) _ e1 in
            let e_ok : report F j success ≡ some (true, []) =
              e_report ∙ ap (λ r. some (r.0)) (some_inj e2) in
            let e_world : w1 ≡ w' = ap (λ r. r.1) (some_inj e2) in
            written-IsSaved laws json_laws c folder raw password salt enc w w' e_enc (
              write_json_file-success laws (folder ++ seed_path) (seed_object enc salt) w w' success
                (seen (seed_object enc salt)) (e_write ∙ ap (λ x. some (success, x)) e_world) e_ok)
        | inr (what, e_enc) ↦
            let bad : false ≡ true =
              ap (λ r. r.0.0) (some_inj (rw (e_enc, save_encrypted_mnemonic) at e)) in
            cc
      ]

  load_saved :
      (c : Cipher) (folder raw password salt given old : Str) (w : F.World)
      → IsSaved c folder raw password salt w
      → (enc : Str) × (o : JsonObject) × (c.encrypt raw password salt ≡ ok enc)
        × (load_encrypted_mnemonic F j c folder given old w ≡ some (decrypt_seed F j c given o old))
        × (stored_seed o ≡ some (replace_byte b'\n' b' ' enc, salt))
  unfolding load_encrypted_mnemonic
  load_saved c folder raw password salt given old w
        (enc, contents, o, e_enc, e_read, e_parse, no_error, seed) =
      (enc, o, e_enc, rw (e_read, e_parse, no_error) refl, seed)

  -- A mnemonic whose saving is reported as a success is loaded again with the same password, whatever
  -- phrase was there before the loading, unless the file could not be opened or written without an
  -- exception.
  pub load_encrypted_mnemonic-save :
      FileLaws F j
      → JsonLaws j
      → (c : Cipher) → CipherLaws c
      → (folder random raw password old : Str) (w w' : F.World)
      → ((o : JsonObject) → (F.write w (folder ++ seed_path) o).0 ≢ unseen)
      → save_encrypted_mnemonic F j c folder random raw password w ≡ some ((true, []), w')
      → load_encrypted_mnemonic F j c folder password old w' ≡ some ((true, []), raw)
  unfolding decrypt_seed
  load_encrypted_mnemonic-save laws json_laws c cipher_laws folder random raw password old w w' seen
        e =
      let salt : Str = take salt_bytes (c.digest_hex random) in
      let saved = save-IsSaved laws json_laws c folder random raw password w w' seen e in
      let (enc, o, e_enc, loaded, seed) =
        load_saved c folder raw password salt password old w' saved in
      loaded
      ∙ rw
          (
            decrypt_seed,
            seed,
            replace_byte_back enc (cipher_laws.encrypt_no_space raw password salt enc e_enc),
            cipher_laws.decrypt-encrypt raw password salt enc e_enc,
          )
          refl
