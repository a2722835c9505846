-- ===== src/LastUsed.antt =====
-- qmlwrap/QmlSystem.cpp, the wallet and the accounts that were used last, in two JSON files of the
-- folder of settings. `config` is QStandardPaths::writableLocation(AppConfigLocation), and `wallet` is
-- Utils::walletFolderPath. `none` is an exception that leaves the function.
pub mod JsonFiles
pub mod Entries
pub mod Wallets
pub mod Refinement
use avme_wallet.Base.{
  if◌then◌else◌, ◌>>=◌, Str, codes, same, is_empty, Bool, true, false, ◌||◌, not, Option, none,
  some, List, [], ◌∷◌, ◌++◌,
}
use avme_wallet.Utils.Json.Tree.{
  Value, null, string, natural, negative, boolean, array, object, Items, end, item, Fields, done,
  member, at_field, as_string, index, has_field, assign,
}
use avme_wallet.LastUsed.JsonFiles.{Disk, Printer, read_json, write_json}

abbrev pub last_wallet_path : Str → Str
last_wallet_path config = config ++ codes "/lastWallet.json"

abbrev pub last_account_path : Str → Str
last_account_path config = config ++ codes "/lastAccount.json"

-- The JSON that getLastAccount shows.
pub record Shown : Type 0 where
  pub account : Str
  pub ledger_path : Option Value

abbrev pub nothing_shown : Shown
nothing_shown = record { account = []; ledger_path = none }

abbrev pub ledger_member : Option Value → Fields → Fields
ledger_member none fs = fs
ledger_member (some v) fs = member (codes "ledgerPath") v fs

abbrev pub text_member : Option Str → Fields → Fields
text_member none fs = fs
text_member (some s) fs = member (codes "ledgerPath") (string s) fs

abbrev pub shown_value : Shown → Value
shown_value s =
    object (member (codes "account") (string s.account) (ledger_member s.ledger_path done))

abbrev pub values : Fields → List Value
values done = []
values (member k v fs) = v ∷ values fs

abbrev pub item_list : Items → List Value
item_list end = []
item_list (item v xs) = v ∷ item_list xs

-- What a loop over a value visits: a value that is no container is visited itself.
abbrev pub elements : Value → List Value
elements null = []
elements (array xs) = item_list xs
elements (object fs) = values fs
elements (string s) = string s ∷ []
elements (natural n) = natural n ∷ []
elements (negative n) = negative n ∷ []
elements (boolean b) = boolean b ∷ []

-- v[key].get<std::string>()
abbrev pub string_at : Str → Value → Option Str
string_at key v = do x ← index key v; as_string x

-- if (lastAccount.contains("ledgerPath")) { … }
abbrev pub ledger_path_of : Value → Option Value → Option Value
ledger_path_of (object fs) before =
    if has_field (codes "ledgerPath") fs then some (at_field (codes "ledgerPath") fs) else before
ledger_path_of null before = before
ledger_path_of (string s) before = before
ledger_path_of (natural n) before = before
ledger_path_of (negative n) before = before
ledger_path_of (boolean b) before = before
ledger_path_of (array xs) before = before

unfoldable pub read_entry : Str → Value → Shown → Option Shown
read_entry wallet entry shown = do
  entry_wallet ← string_at (codes "wallet") entry
  if not (same entry_wallet wallet) then some shown else do
    account ← string_at (codes "account") entry
    some (record { account = account; ledger_path = ledger_path_of entry shown.ledger_path })

-- The loop goes on behind an entry of the wallet, so the last one counts.
unfoldable pub read_entries : Str → List Value → Shown → Option Shown
read_entries wallet [] shown = some shown
read_entries wallet (entry ∷ entries) shown = do
  next ← read_entry wallet entry shown
  read_entries wallet entries next

-- The entry of this wallet gets the account; the other members stay.
unfoldable pub set_account : Str → Str → Value → Option (Value × Bool)
set_account wallet account entry = do
  entry_wallet ← string_at (codes "wallet") entry
  if not (same entry_wallet wallet)
      then some (entry, false)
      else do changed ← assign (codes "account") (string account) entry; some (changed, true)

-- The loop ends with the first entry of the wallet.
unfoldable pub update_items : Str → Str → Items → Option (Items × Bool)
update_items wallet account end = some (end, false)
update_items wallet account (item v xs) = do
  (v', hit) ← set_account wallet account v
  elim hit [
    | true ↦ some (item v' xs, true)
    | false ↦ do (xs', later) ← update_items wallet account xs; some (item v' xs', later)
  ]

unfoldable pub update_fields : Str → Str → Fields → Option (Fields × Bool)
update_fields wallet account done = some (done, false)
update_fields wallet account (member k v fs) = do
  (v', hit) ← set_account wallet account v
  elim hit [
    | true ↦ some (member k v' fs, true)
    | false ↦ do (fs', later) ← update_fields wallet account fs; some (member k v' fs', later)
  ]

unfoldable pub update_paths : Str → Str → Value → Option (Value × Bool)
update_paths wallet account null = some (null, false)
update_paths wallet account (array xs) = do
  (xs', hit) ← update_items wallet account xs
  some (array xs', hit)
update_paths wallet account (object fs) = do
  (fs', hit) ← update_fields wallet account fs
  some (object fs', hit)
update_paths wallet account (string s) = none
update_paths wallet account (natural n) = none
update_paths wallet account (negative n) = none
update_paths wallet account (boolean b) = none

abbrev pub append_item : Items → Value → Items
append_item end x = item x end
append_item (item v xs) x = item v (append_item xs x)

-- v.push_entry(x)
abbrev pub push_entry : Value → Value → Option Value
push_entry x null = some (array (item x end))
push_entry x (array xs) = some (array (append_item xs x))
push_entry x (object fs) = none
push_entry x (string s) = none
push_entry x (natural n) = none
push_entry x (negative n) = none
push_entry x (boolean b) = none

-- The members in the order of their keys.
abbrev pub new_entry : Str → Str → Option Str → Value
new_entry wallet account ledger_path = object (
    member (codes "account") (string account)
      (text_member ledger_path (member (codes "wallet") (string wallet) done)))

-- v.empty()
abbrev pub empty_value : Value → Bool
empty_value null = true
empty_value (array end) = true
empty_value (array (item v xs)) = false
empty_value (object done) = true
empty_value (object (member k v fs)) = false
empty_value (string s) = false
empty_value (natural n) = false
empty_value (negative n) = false
empty_value (boolean b) = false

-- What saveLastAccount makes of the file's value.
unfoldable pub save_entry : Str → Str → Option Str → Value → Option Value
save_entry wallet account ledger_path v = do
  started ← if empty_value v then assign (codes "paths") (array end) v else some v
  paths ← index (codes "paths") started
  (changed, hit) ← update_paths wallet account paths
  whole ← if hit then some changed else push_entry (new_entry wallet account ledger_path) changed
  assign (codes "paths") whole started

unfoldable pub erase_item : Str → Items → Option Items
erase_item wallet end = some end
erase_item wallet (item v xs) = do
  entry_wallet ← string_at (codes "wallet") v
  if same entry_wallet wallet then some xs else do xs' ← erase_item wallet xs; some (item v xs')

-- A place in what is no array throws, and an empty value has none.
unfoldable pub erase_paths : Str → Value → Option Value
erase_paths wallet null = some null
erase_paths wallet (array xs) = do xs' ← erase_item wallet xs; some (array xs')
erase_paths wallet (object done) = some (object done)
erase_paths wallet (object (member k v fs)) = none
erase_paths wallet (string s) = none
erase_paths wallet (natural n) = none
erase_paths wallet (negative n) = none
erase_paths wallet (boolean b) = none

-- What deleteLastAccount makes of the file's value.
unfoldable pub delete_entry : Str → Value → Option Value
delete_entry wallet v = do
  paths ← index (codes "paths") v
  left ← erase_paths wallet paths
  assign (codes "paths") left v

module _ (F : Disk) (j : Printer) where
  unfoldable pub get_last_wallet : Str → F.World → Option Str
  get_last_wallet config w =
      if is_empty config || not (F.exists w (last_wallet_path config)) then some [] else do
        v ← read_json F j (last_wallet_path config) w
        last_wallet ← string_at (codes "path") v
        some (if not (F.exists w last_wallet) then [] else last_wallet)

  -- The folder is made where it is not there.
  unfoldable pub with_folder : Str → F.World → F.World
  with_folder config w = if not (F.exists w config) then F.create_directories w config else w

  unfoldable pub save_last_wallet : Str → Str → F.World → Option (Bool × F.World)
  save_last_wallet config wallet w =
      if is_empty config
      then some (false, w)
      else (let w₁ = with_folder config w in
          let path = last_wallet_path config in
          let w₂ = if F.exists w₁ path then (F.remove w₁ path).1 else w₁ in
          write_json F j path (object (member (codes "path") (string wallet) done)) w₂)

  unfoldable pub delete_last_wallet : Str → F.World → Bool × F.World
  delete_last_wallet config w = F.remove w (last_wallet_path config)

  unfoldable pub get_last_account : Str → Str → F.World → Option Str
  get_last_account config wallet w =
      if is_empty config || not (F.exists w (last_account_path config))
      then j.dump (shown_value nothing_shown)
      else do
        v ← read_json F j (last_account_path config) w
        paths ← index (codes "paths") v
        shown ← read_entries wallet (elements paths) nothing_shown
        j.dump (shown_value shown)

  -- `ledger_path` is the path where isLedger is set.
  unfoldable pub save_last_account :
      Str → Str → Str → Option Str → F.World → Option (Bool × F.World)
  save_last_account config wallet account ledger_path w =
      if is_empty config then some (false, w) else do
        let w₁ = with_folder config w
        let path = last_account_path config
        v ← if F.exists w₁ path then read_json F j path w₁ else some (object done)
        changed ← save_entry wallet account ledger_path v
        write_json F j path changed w₁

  unfoldable pub delete_last_account : Str → Str → F.World → Option (Bool × F.World)
  delete_last_account config wallet w =
      if is_empty config || not (F.exists w (last_account_path config)) then some (false, w) else do
        v ← read_json F j (last_account_path config) w
        changed ← delete_entry wallet v
        write_json F j (last_account_path config) changed w
