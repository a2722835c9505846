-- ===== src/LastUsed/Entries.antt =====
-- The entries of the file lastAccount.json as records, and what saving, deleting and reading do to
-- their list.
use avme_wallet.Base.{
  if◌then◌else◌, Bool-cases, Option-cases, Str, codes, same, same→eq, same_sym, ◌≡◌, refl, ap, ◌∙◌,
  inl, inr, Bool, true, false, Option, none, some, List, [], ◌∷◌,
}
use avme_wallet.Utils.Json.Tree.{
  Value, string, array, object, Items, end, item, done, member, assign,
}
use avme_wallet.LastUsed.{
  Shown, item_list, string_at, ledger_path_of, read_entry, read_entries, set_account, update_items,
  update_paths, append_item, new_entry, save_entry, erase_item, erase_paths, delete_entry,
}
use avme_wallet.LastUsed.JsonFiles.{in_order, in_order_items}

pub record Entry : Type 0 where
  pub wallet : Str
  pub account : Str
  pub ledger_path : Option Str

-- What is known of a wallet.
abbrev pub Known : Type 0
Known = Str × Option Str

unfoldable pub entry_value : Entry → Value
entry_value e = new_entry e.wallet e.account e.ledger_path

unfoldable pub entry_items : List Entry → Items
entry_items [] = end
entry_items (e ∷ es) = item (entry_value e) (entry_items es)

abbrev pub file_value : List Entry → Value
file_value es = object (member (codes "paths") (array (entry_items es)) done)

abbrev pub lookup : List Entry → Str → Option Known
lookup [] k = none
lookup (e ∷ es) k = if same e.wallet k then some (e.account, e.ledger_path) else lookup es k

abbrev pub OneEach : List Entry → Type 0
OneEach [] = Unit
OneEach (e ∷ es) = (lookup es e.wallet ≡ none) × OneEach es

abbrev pub saved : Str → Str → Option Str → List Entry → List Entry
saved k account p [] = record { wallet = k; account = account; ledger_path = p } ∷ []
saved k account p (e ∷ es) =
    let rest = saved k account p es in
    if same e.wallet k then record e { account = account } ∷ es else e ∷ rest

abbrev pub deleted : Str → List Entry → List Entry
deleted k [] = []
deleted k (e ∷ es) = let rest = deleted k es in if same e.wallet k then es else e ∷ rest

-- What is shown for a wallet.
abbrev pub shown_for : Option Known → Shown → Shown
shown_for none before = before
shown_for (some (account, none)) before = record {
  account = account;
  ledger_path = before.ledger_path;
}
shown_for (some (account, some p)) before = record {
  account = account;
  ledger_path = some (string p);
}

wallet_of_entry : (e : Entry) → string_at (codes "wallet") (entry_value e) ≡ some e.wallet
unfolding entry_value
wallet_of_entry e = elim (Option-cases e.ledger_path) [ inl n ↦ rw n refl | inr (p, y) ↦ rw y refl ]

account_of_entry : (e : Entry) → string_at (codes "account") (entry_value e) ≡ some e.account
unfolding entry_value
account_of_entry e = refl

assign_entry :
    (e : Entry) (b : Str)
    → assign (codes "account") (string b) (entry_value e)
      ≡ some (entry_value (record e { account = b }))
unfolding entry_value
assign_entry e b = refl

shown_entry :
    (e : Entry) (before : Shown)
    → record {
      account = e.account;
      ledger_path = ledger_path_of (entry_value e) before.ledger_path;
    }
      ≡ shown_for (some (e.account, e.ledger_path)) before
unfolding entry_value
shown_entry e before = elim (Option-cases e.ledger_path) [
  | inl n ↦ rw n refl
  | inr (p, y) ↦ rw y refl
]

set_account-hit :
    (k b : Str) (e : Entry)
    → same e.wallet k ≡ true
    → set_account k b (entry_value e) ≡ some (entry_value (record e { account = b }), true)
unfolding set_account
set_account-hit k b e h = rw (set_account, wallet_of_entry e, h, assign_entry e b) refl

set_account-miss :
    (k b : Str) (e : Entry)
    → same e.wallet k ≡ false
    → set_account k b (entry_value e) ≡ some (entry_value e, false)
unfolding set_account
set_account-miss k b e h = rw (set_account, wallet_of_entry e, h) refl

known : Str → List Entry → Bool
known k [] = false
known k (e ∷ es) = let rest = known k es in if same e.wallet k then true else rest

updated : Str → Str → List Entry → List Entry
updated k b [] = []
updated k b (e ∷ es) =
    let rest = updated k b es in if same e.wallet k then record e { account = b } ∷ es else e ∷ rest

update_items-updated :
    (k b : Str) (es : List Entry)
    → update_items k b (entry_items es) ≡ some (entry_items (updated k b es), known k es)
unfolding update_items entry_items updated known
update_items-updated k b [] = refl
update_items-updated k b (e ∷ es) = elim (Bool-cases (same e.wallet k)) [
  | inl y ↦ rw (update_items, set_account-hit k b e y, y) refl
  | inr n ↦ rw (update_items, set_account-miss k b e n, n, update_items-updated k b es) refl
]

saved-known :
    (k b : Str) (p : Option Str) (es : List Entry)
    → known k es ≡ true
    → saved k b p es ≡ updated k b es
unfolding known updated
saved-known k b p [] h = cc
saved-known k b p (e ∷ es) h = elim (Bool-cases (same e.wallet k)) [
  | inl y ↦ rw y refl
  | inr n ↦ rw n (ap (◌∷◌ e) (saved-known k b p es (rw (n, known) at h)))
]

saved_unknown :
    (k b : Str) (p : Option Str) (es : List Entry)
    → known k es ≡ false
    → entry_items (saved k b p es) ≡ append_item (entry_items (updated k b es)) (new_entry k b p)
unfolding known updated entry_items entry_value
saved_unknown k b p [] h = refl
saved_unknown k b p (e ∷ es) h = elim (Bool-cases (same e.wallet k)) [
  | inl y ↦ let bad : true ≡ false = rw (y, known) at h in cc
  | inr n ↦ rw n (ap (item (entry_value e)) (saved_unknown k b p es (rw (n, known) at h)))
]

-- saveLastAccount on the value of a list of entries.
pub save_entry-saved :
    (k b : Str) (p : Option Str) (es : List Entry)
    → save_entry k b p (file_value es) ≡ some (file_value (saved k b p es))
unfolding save_entry update_paths
save_entry-saved k b p es = elim (Bool-cases (known k es)) [
  | inl y ↦
      rw (save_entry, update_paths, update_items-updated k b es, y, saved-known k b p es y) refl
  | inr n ↦
      rw (save_entry, update_paths, update_items-updated k b es, n, saved_unknown k b p es n) refl
]

erase_item-deleted :
    (k : Str) (es : List Entry) → erase_item k (entry_items es) ≡ some (entry_items (deleted k es))
unfolding erase_item entry_items
erase_item-deleted k [] = refl
erase_item-deleted k (e ∷ es) = elim (Bool-cases (same e.wallet k)) [
  | inl y ↦ rw (erase_item, wallet_of_entry e, y) refl
  | inr n ↦ rw (erase_item, wallet_of_entry e, n, erase_item-deleted k es) refl
]

-- deleteLastAccount on the value of a list of entries.
pub delete_entry-deleted :
    (k : Str) (es : List Entry) → delete_entry k (file_value es) ≡ some (file_value (deleted k es))
unfolding delete_entry erase_paths
delete_entry-deleted k es = rw (erase_item-deleted k es) refl

read_entry-hit :
    (k : Str) (e : Entry) (before : Shown)
    → same e.wallet k ≡ true
    → read_entry k (entry_value e) before
      ≡ some (shown_for (some (e.account, e.ledger_path)) before)
unfolding read_entry
read_entry-hit k e before h =
    rw (read_entry, wallet_of_entry e, h, account_of_entry e) (ap some (shown_entry e before))

read_entry-miss :
    (k : Str) (e : Entry) (before : Shown)
    → same e.wallet k ≡ false
    → read_entry k (entry_value e) before ≡ some before
unfolding read_entry
read_entry-miss k e before h = rw (read_entry, wallet_of_entry e, h) refl

-- The loop of getLastAccount over entries of different wallets.
pub read_entries-shown :
    (k : Str) (es : List Entry) (before : Shown)
    → OneEach es
    → read_entries k (item_list (entry_items es)) before ≡ some (shown_for (lookup es k) before)
unfolding read_entries entry_items
read_entries-shown k [] before one_each = refl
read_entries-shown k (e ∷ es) before (alone, one_each) = elim (Bool-cases (same e.wallet k)) [
  | inl y ↦
      rw (read_entry-hit k e before y, y)
        (read_entries-shown k es (shown_for (some (e.account, e.ledger_path)) before) one_each
          ∙ rw (← same→eq e.wallet k y, alone) refl)
  | inr n ↦ rw (read_entry-miss k e before n, n) (read_entries-shown k es before one_each)
]

pub lookup-saved :
    (k j b : Str) (p : Option Str) (es : List Entry)
    → lookup (saved k b p es) j
      ≡ (if same k j then some (b, elim (lookup es k) [ none ↦ p | some r ↦ r.1 ]) else lookup es j)
lookup-saved k j b p [] = refl
lookup-saved k j b p (e ∷ es) = elim (Bool-cases (same e.wallet k)) [
  | inl y ↦ elim (Bool-cases (same k j)) [
    | inl z ↦ rw (y, same→eq e.wallet k y, z) refl
    | inr z ↦ rw (y, same→eq e.wallet k y, z) refl
  ]
  | inr n ↦ elim (Bool-cases (same e.wallet j)) [
    | inl z ↦
        let other : same k j ≡ false = rw (← same→eq e.wallet j z, same_sym k e.wallet) n in
        rw (n, z, other) refl
    | inr z ↦ rw (n, z) (lookup-saved k j b p es)
  ]
]

pub saved-OneEach :
    (k b : Str) (p : Option Str) (es : List Entry) → OneEach es → OneEach (saved k b p es)
saved-OneEach k b p [] h = (refl, tt)
saved-OneEach k b p (e ∷ es) (alone, h) = elim (Bool-cases (same e.wallet k)) [
  | inl y ↦ rw y (alone, h)
  | inr n ↦
      let other : same k e.wallet ≡ false = same_sym k e.wallet ∙ n in
      rw n (rw (lookup-saved k e.wallet b p es, other) alone, saved-OneEach k b p es h)
]

pub lookup-deleted :
    (k j : Str) (es : List Entry)
    → OneEach es
    → lookup (deleted k es) j ≡ (if same k j then none else lookup es j)
lookup-deleted k j [] h = elim (Bool-cases (same k j)) [ inl z ↦ rw z refl | inr z ↦ rw z refl ]
lookup-deleted k j (e ∷ es) (alone, h) = elim (Bool-cases (same e.wallet k)) [
  | inl y ↦ elim (Bool-cases (same k j)) [
    | inl z ↦
        let here : lookup es j ≡ none = rw (← same→eq k j z, ← same→eq e.wallet k y) alone in
        rw (y, z) here
    | inr z ↦ rw (y, same→eq e.wallet k y, z) refl
  ]
  | inr n ↦ elim (Bool-cases (same e.wallet j)) [
    | inl z ↦
        let other : same k j ≡ false = rw (← same→eq e.wallet j z, same_sym k e.wallet) n in
        rw (n, z, other) refl
    | inr z ↦ rw (n, z) (lookup-deleted k j es h)
  ]
]

pub deleted-OneEach : (k : Str) (es : List Entry) → OneEach es → OneEach (deleted k es)
deleted-OneEach k [] h = tt
deleted-OneEach k (e ∷ es) (alone, h) = elim (Bool-cases (same e.wallet k)) [
  | inl y ↦ rw y h
  | inr n ↦
      let other : same k e.wallet ≡ false = same_sym k e.wallet ∙ n in
      rw n (rw (lookup-deleted k e.wallet es h, other) alone, deleted-OneEach k es h)
]

entry_in_order : (e : Entry) → in_order (entry_value e) ≡ true
unfolding entry_value in_order
entry_in_order e = elim (Option-cases e.ledger_path) [ inl n ↦ rw n refl | inr (p, y) ↦ rw y refl ]

items_in_order : (es : List Entry) → in_order_items (entry_items es) ≡ true
unfolding entry_items in_order_items
items_in_order [] = refl
items_in_order (e ∷ es) = rw (entry_in_order e) (items_in_order es)

pub file_in_order : (es : List Entry) → in_order (file_value es) ≡ true
unfolding in_order
file_in_order es = rw (items_in_order es) refl
