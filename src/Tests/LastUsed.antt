-- ===== src/Tests/LastUsed.antt =====
-- qmlwrap/QmlSystem.cpp, the wallet and the accounts used last, at concrete inputs.
use avme_wallet.Base.{
  if◌then◌else◌, some_inj, Str, codes, same, same_refl, ◌≡◌, refl, ap, subst, Bool, true, false,
  Option, none, some, List, [], ◌∷◌,
}
use avme_wallet.Utils.Json.Tree.{Value, null, string, object, done, member}
use avme_wallet.Seeds.{Result, ok, error, stored}
use avme_wallet.LastUsed.JsonFiles.{Disk, DiskLaws, read_json, write_json}
use avme_wallet.LastUsed.{
  last_wallet_path, nothing_shown, shown_value, set_account, update_items, update_paths, save_entry,
  erase_item, erase_paths, delete_entry, with_folder, get_last_account, save_last_account,
  delete_last_account,
}
use avme_wallet.LastUsed.Entries.{shown_for}
use avme_wallet.LastUsed.Refinement.{
  Call, save, delete, spec, spec_all, perform, run, get_last_account-run,
}
use avme_wallet.Tests.Trees.{print_tree, parse_tree, trees, parse_tree-print, tree_text_not_empty}

-- Files by their paths, the newest first.
abbrev Paths : Type 0
Paths = List (Str × Value)

abbrev read_path : Paths → Str → Option Value
read_path [] path = none
read_path ((p, v) ∷ w) path = if same p path then some v else read_path w path

abbrev is_there : Option Value → Bool
is_there none = false
is_there (some v) = true

abbrev contents : Option Value → Result Value
contents none = error (codes "no file")
contents (some v) = ok v

abbrev paths : Disk
paths = record {
  World = Paths;
  exists = λ w path. is_there (read_path w path);
  read = λ w path. contents (read_path w path);
  write = λ w path v. (stored, (path, v) ∷ w);
  create_directories = λ w folder. w;
  remove = λ w path. (true, w);
}

paths_read-write :
    (w w' : Paths) (path : Str) (v : Value)
    → paths.write w path v ≡ (stored, w')
    → (is_there (read_path w' path) ≡ true)
      × (contents (read_path w' path) ≡ ok v)
      × (s : Str) × (trees.dump v ≡ some s)
paths_read-write w w' path v e =
    let e' : (path, v) ∷ w ≡ w' = ap (λ r. r.1) e in
    subst
      (λ x.
        (is_there (read_path x path) ≡ true)
        × (contents (read_path x path) ≡ ok v)
        × (s : Str) × (trees.dump v ≡ some s))
      e' (rw (same_refl path) refl, rw (same_refl path) refl, print_tree v, refl)

text_inj : (s t : Str) → ◌≡◌ {A = Option Str} (some s) (some t) → s ≡ t
text_inj s t e = some_inj e

paths-DiskLaws : DiskLaws paths trees
paths-DiskLaws = record {
  read-write = λ w w' path v sorted e. paths_read-write w w' path v e;
  parse-dump = λ v s sorted e.
      subst (λ t. parse_tree t ≡ some v) (text_inj (print_tree v) s e) (parse_tree-print v);
  dump_not_empty = λ fs e. tree_text_not_empty (object fs) (text_inj (print_tree (object fs)) [] e);
  exists-create_directories = λ w folder name. refl;
  read-create_directories = λ w folder path. refl;
}

abbrev first_wallet : Str
first_wallet = codes "/home/one"

abbrev second_wallet : Str
second_wallet = codes "/home/two"

-- Two wallets; the first one's account is saved again, and the second one's is deleted.
abbrev calls : List Call
calls =
    save first_wallet (codes "0xaa") (some (codes "m/0"))
    ∷ save second_wallet (codes "0xbb") none
    ∷ save first_wallet (codes "0xcc") none
    ∷ delete second_wallet
    ∷ []

-- What a run leaves, or the empty disk.
abbrev world_of : Option Paths → Paths
world_of none = []
world_of (some w) = w

abbrev behind_calls : Paths
behind_calls = world_of (run paths trees (codes "/conf") calls [])

get_last_account-run_example :
    get_last_account paths trees (codes "/conf") first_wallet behind_calls
    ≡ trees.dump (shown_value (shown_for (spec_all calls (λ i. none) first_wallet) nothing_shown))
unfolding run perform save_last_account delete_last_account save_entry delete_entry with_folder
    read_json write_json update_paths update_items erase_paths erase_item set_account print_tree
    parse_tree
get_last_account-run_example =
    get_last_account-run paths trees paths-DiskLaws (λ w path v e. cc) (codes "/conf") calls
      first_wallet [] behind_calls refl refl refl

-- The path on the device stays with the account that was saved last.
shown_first : spec_all calls (λ i. none) first_wallet ≡ some (codes "0xcc", some (codes "m/0"))
unfolding spec_all spec
shown_first = refl

abbrev behind_save : Paths
behind_save =
    (last_wallet_path (codes "/conf"), object (member (codes "path") (string first_wallet) done))
    ∷ (first_wallet, null)
    ∷ []
