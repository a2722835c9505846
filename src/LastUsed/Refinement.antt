-- ===== src/LastUsed/Refinement.antt =====
-- Sequences of savings and deletions of the last account, of several wallets, against a function from
-- the wallets to what was saved.
use avme_wallet.Base.{
  if◌then◌else◌, Bool-cases, ◌>>=◌, bind-eq-some, some_inj, Str, codes, same, is_empty, ◌≡◌, refl,
  ap, ◌∙◌, subst, ◌⊎◌, inl, inr, Bool, true, false, Option, none, some, List, [], ◌∷◌,
}
use avme_wallet.Utils.Json.Tree.{Value, object, done}
use avme_wallet.Seeds.{ok}
use avme_wallet.LastUsed.JsonFiles.{
  Disk, Printer, DiskLaws, WritesSeen, read_json, write_json, write_json-success, read_json-read,
}
use avme_wallet.LastUsed.{
  last_account_path, nothing_shown, shown_value, update_items, update_paths, save_entry,
  with_folder, get_last_account, save_last_account, delete_last_account,
}
use avme_wallet.LastUsed.Entries.{
  Entry, Known, entry_value, entry_items, file_value, lookup, OneEach, saved, deleted, shown_for,
  save_entry-saved, delete_entry-deleted, read_entries-shown, lookup-saved, saved-OneEach,
  lookup-deleted, deleted-OneEach, file_in_order,
}
use std.Path.{fun_ext}

pub data Call : Type 0 where
  -- wallet, account and the path on the device
  save : Str → Str → Option Str → Call
  delete : Str → Call

abbrev Saved : Type 0
Saved = Str → Option Known

-- What the calls mean. A wallet that is known keeps the path on the device that it had.
unfoldable pub spec : Call → Saved → Saved
spec (save k account p) σ j =
    if same k j then some (account, elim (σ k) [ none ↦ p | some r ↦ r.1 ]) else σ j
spec (delete k) σ j = if same k j then none else σ j

unfoldable pub spec_all : List Call → Saved → Saved
spec_all [] σ = σ
spec_all (c ∷ cs) σ = spec_all cs (spec c σ)

entries : Call → List Entry → List Entry
entries (save k account p) es = saved k account p es
entries (delete k) es = deleted k es

entries-spec :
    (c : Call) (es : List Entry) → OneEach es → lookup (entries c es) ≡ spec c (lookup es)
unfolding entries spec
entries-spec (save k account p) es h = fun_ext (λ j. lookup-saved k j account p es)
entries-spec (delete k) es h = fun_ext (λ j. lookup-deleted k j es h)

entries-OneEach : (c : Call) (es : List Entry) → OneEach es → OneEach (entries c es)
unfolding entries
entries-OneEach (save k account p) es h = saved-OneEach k account p es h
entries-OneEach (delete k) es h = deleted-OneEach k es h

module _ (F : Disk) (j : Printer) (config : Str) where
  unfoldable pub perform : Call → F.World → Option (Bool × F.World)
  perform (save k account p) w = save_last_account F j config k account p w
  perform (delete k) w = delete_last_account F j config k w

  -- The calls in their order, as long as each is reported as a success.
  unfoldable pub run : List Call → F.World → Option F.World
  run [] w = some w
  run (c ∷ cs) w = do (success, w') ← perform c w; if success then run cs w' else none

  abbrev path : Str
  path = last_account_path config

  -- The file has the entries; there is none where there are no entries yet.
  abbrev Holds : List Entry → F.World → Type 0
  Holds es w =
      ((es ≡ []) × (F.exists w path ≡ false))
      ⊎ ((F.exists w path ≡ true)
          × (F.read w path ≡ ok (file_value es))
          × (s : Str) × (j.dump (file_value es) ≡ some s))

module _ (F : Disk) (j : Printer) (laws : DiskLaws F j) (seen : WritesSeen F j) (config : Str) where
  written-Holds :
      (es : List Entry) (w w' : F.World)
      → write_json F j (path F j config) (file_value es) w ≡ some (true, w')
      → Holds F j config es w'
  written-Holds es w w' e = inr (
      laws.read-write w w' (path F j config) (file_value es) (file_in_order es)
        (write_json-success F j laws seen (path F j config) (file_value es) w w' e))

  created-Holds :
      (es : List Entry) (w : F.World)
      → Holds F j config es w
      → Holds F j config es (F.create_directories w config)
  created-Holds es w (inl (none_yet, missing)) =
      inl (none_yet, laws.exists-create_directories w config (codes "lastAccount.json") ∙ missing)
  created-Holds es w (inr (there, e_read, s, e_dump)) = inr (
    laws.exists-create_directories w config (codes "lastAccount.json") ∙ there,
    laws.read-create_directories w config (last_account_path config) ∙ e_read,
    s,
    e_dump,
  )

  with_folder-Holds :
      (es : List Entry) (w : F.World)
      → Holds F j config es w
      → Holds F j config es (with_folder F j config w)
  unfolding with_folder
  with_folder-Holds es w h = elim (Bool-cases (F.exists w config)) [
    | inl y ↦ rw (y, with_folder) h
    | inr n ↦ rw (n, with_folder) (created-Holds es w h)
  ]

  read_held :
      (es : List Entry) (w : F.World)
      → (F.exists w (path F j config) ≡ true)
        × (F.read w (path F j config) ≡ ok (file_value es))
        × (s : Str) × (j.dump (file_value es) ≡ some s)
      → read_json F j (path F j config) w ≡ some (file_value es)
  read_held es w (there, e_read, s, e_dump) =
      read_json-read F j laws (path F j config) (file_value es) w s (file_in_order es) there e_read
        e_dump

  -- What saveLastAccount starts from.
  started :
      (k account : Str) (p : Option Str) (es : List Entry) (w : F.World)
      → Holds F j config es w
      → (v : Value) × ((if F.exists w (path F j config)
            then read_json F j (path F j config) w
            else some (object done))
          ≡ some v)
        × (save_entry k account p v ≡ some (file_value (saved k account p es)))
  unfolding save_entry update_paths update_items entry_items entry_value
  started k account p es w (inl (none_yet, missing)) =
      (object done, rw missing refl, rw none_yet refl)
  started k account p es w (inr (there, e_read, s, e_dump)) = (
    file_value es,
    rw there (read_held es w (there, e_read, s, e_dump)),
    save_entry-saved k account p es,
  )

  save-Holds :
      (k account : Str) (p : Option Str) (es : List Entry) (w w' : F.World)
      → Holds F j config es w
      → save_last_account F j config k account p w ≡ some (true, w')
      → Holds F j config (saved k account p es) w'
  unfolding save_last_account
  save-Holds k account p es w w' h e = elim (Bool-cases (is_empty config)) [
    | inl y ↦
        let bad : false ≡ true = ap (λ r. r.0) (some_inj (rw (y, save_last_account) at e)) in cc
    | inr n ↦
        let (v, e_start, e_save) =
          started k account p es (with_folder F j config w) (with_folder-Holds es w h) in
        written-Holds (saved k account p es) (with_folder F j config w) w'
          (rw (n, save_last_account, e_start, e_save) at e)
  ]

  delete-Holds :
      (k : Str) (es : List Entry) (w w' : F.World)
      → Holds F j config es w
      → delete_last_account F j config k w ≡ some (true, w')
      → Holds F j config (deleted k es) w'
  unfolding delete_last_account
  delete-Holds k es w w' (inl (none_yet, missing)) e = elim (Bool-cases (is_empty config)) [
    | inl y ↦
        let bad : false ≡ true = ap (λ r. r.0) (some_inj (rw (y, delete_last_account) at e)) in cc
    | inr n ↦
        let bad : false ≡ true =
          ap (λ r. r.0) (some_inj (rw (n, missing, delete_last_account) at e)) in
        cc
  ]
  delete-Holds k es w w' (inr (there, e_read, s, e_dump)) e = elim (Bool-cases (is_empty config)) [
    | inl y ↦
        let bad : false ≡ true = ap (λ r. r.0) (some_inj (rw (y, delete_last_account) at e)) in cc
    | inr n ↦ written-Holds (deleted k es) w w' (
        rw
          (
            n,
            there,
            delete_last_account,
            read_held es w (there, e_read, s, e_dump),
            delete_entry-deleted k es,
          )
          at e)
  ]

  perform-Holds :
      (c : Call) (es : List Entry) (w w' : F.World)
      → Holds F j config es w
      → perform F j config c w ≡ some (true, w')
      → Holds F j config (entries c es) w'
  unfolding perform entries
  perform-Holds (save k account p) es w w' h e = save-Holds k account p es w w' h e
  perform-Holds (delete k) es w w' h e = delete-Holds k es w w' h e

  run-Holds :
      (cs : List Call) (es : List Entry) (w w' : F.World)
      → Holds F j config es w
      → OneEach es
      → run F j config cs w ≡ some w'
      → (es' : List Entry) × Holds F j config es' w'
        × OneEach es'
        × (lookup es' ≡ spec_all cs (lookup es))
  unfolding run spec_all
  run-Holds [] es w w' h one_each e =
      (es, subst (λ x. Holds F j config es x) (some_inj e) h, one_each, refl)
  run-Holds (c ∷ cs) es w w' h one_each e =
      let ((success, w₁), e_call, e_rest) = bind-eq-some (perform F j config c w) _ e in
      elim (Bool-cases success) [
        | inl y ↦
            let (es', h', one_each', same_entries) =
              run-Holds cs (entries c es) w₁ w'
                (perform-Holds c es w w₁ h (e_call ∙ ap (λ b. some (b, w₁)) y))
                (entries-OneEach c es one_each) (rw y at e_rest) in
            (es', h', one_each', same_entries ∙ ap (spec_all cs) (entries-spec c es one_each))
        | inr n ↦ let bad : none ≡ some w' = rw n at e_rest in cc
      ]

  get-Holds :
      (k : Str) (es : List Entry) (w : F.World)
      → is_empty config ≡ false
      → Holds F j config es w
      → OneEach es
      → get_last_account F j config k w
        ≡ j.dump (shown_value (shown_for (lookup es k) nothing_shown))
  unfolding get_last_account
  get-Holds k es w n (inl (none_yet, missing)) one_each =
      rw (n, missing, get_last_account) (rw none_yet refl)
  get-Holds k es w n (inr (there, e_read, s, e_dump)) one_each =
      rw
        (
          n,
          there,
          get_last_account,
          read_held es w (there, e_read, s, e_dump),
          read_entries-shown k es nothing_shown one_each,
        )
        refl

  -- After any sequence of savings and deletions that are each reported as a success, of whatever
  -- wallets, on a disk where no opening and no writing of a file fails without an exception, from a
  -- folder of settings (at a path that is not empty) without the file: what is shown for a
  -- wallet is what the sequence means for it, so the account that was saved for it last, none behind
  -- a deletion, and the path on the device that its entry was made with.
  pub get_last_account-run :
      (cs : List Call) (k : Str) (w w' : F.World)
      → is_empty config ≡ false
      → F.exists w (path F j config) ≡ false
      → run F j config cs w ≡ some w'
      → get_last_account F j config k w'
        ≡ j.dump (shown_value (shown_for (spec_all cs (λ i. none) k) nothing_shown))
  get_last_account-run cs k w w' n missing e =
      let (es, h, one_each, same_entries) = run-Holds cs [] w w' (inl (refl, missing)) tt e in
      get-Holds k es w' n h one_each
      ∙ ap (λ σ. j.dump (shown_value (shown_for (σ k) nothing_shown))) same_entries
