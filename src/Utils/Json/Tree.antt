-- ===== src/Utils/Json/Tree.antt =====
-- Nested values of nlohmann's json, where Utils/Json has the flat objects that the wallet stores.
use avme_wallet.Base.{
  if◌then◌else◌, Str, same, ℕ, zero, suc, Bool, false, ◌||◌, Option, none, some, List, [], ◌∷◌,
}

mutual
  pub data Value : Type 0 where
    null : Value
    string : Str → Value
    natural : ℕ → Value
    -- a number below zero, by its absolute value
    negative : ℕ → Value
    boolean : Bool → Value
    array : Items → Value
    object : Fields → Value

  pub data Items : Type 0 where
    end : Items
    item : Value → Items → Items

  pub data Fields : Type 0 where
    done : Fields
    member : Str → Value → Fields → Fields

-- The array of a list of values.
abbrev pub items : List Value → Items
items [] = end
items (v ∷ vs) = item v (items vs)

-- The member of an object; a key that is not there reads as null.
abbrev pub at_field : Str → Fields → Value
at_field key done = null
at_field key (member k v fs) = let rest = at_field key fs in if same k key then v else rest

-- v.get<std::string>(); `none` is its exception.
abbrev pub as_string : Value → Option Str
as_string (string s) = some s
as_string null = none
as_string (natural n) = none
as_string (negative n) = none
as_string (boolean b) = none
as_string (array xs) = none
as_string (object fs) = none

-- v[key] where v can be written: null becomes an object, and what is no object throws.
abbrev pub index : Str → Value → Option Value
index key (object fs) = some (at_field key fs)
index key null = some null
index key (string s) = none
index key (natural n) = none
index key (negative n) = none
index key (boolean b) = none
index key (array xs) = none

abbrev pub item_at : ℕ → Items → Value
item_at n end = null
item_at zero (item v xs) = v
item_at (suc n) (item v xs) = item_at n xs

-- v[n] likewise; behind the end stands null.
abbrev pub index_item : ℕ → Value → Option Value
index_item n (array xs) = some (item_at n xs)
index_item n null = some null
index_item n (string s) = none
index_item n (natural k) = none
index_item n (negative k) = none
index_item n (boolean b) = none
index_item n (object fs) = none

abbrev pub has_field : Str → Fields → Bool
has_field key done = false
has_field key (member k v fs) = same k key || has_field key fs

-- v.contains(key)
abbrev pub contains_key : Str → Value → Bool
contains_key key (object fs) = has_field key fs
contains_key key null = false
contains_key key (string s) = false
contains_key key (natural n) = false
contains_key key (negative n) = false
contains_key key (boolean b) = false
contains_key key (array xs) = false

abbrev pub assign_field : Str → Value → Fields → Fields
assign_field key x done = member key x done
assign_field key x (member k v fs) =
    let rest = assign_field key x fs in if same k key then member k x fs else member k v rest

-- v[key] = x
abbrev pub assign : Str → Value → Value → Option Value
assign key x (object fs) = some (object (assign_field key x fs))
assign key x null = some (object (member key x done))
assign key x (string s) = none
assign key x (natural n) = none
assign key x (negative n) = none
assign key x (boolean b) = none
assign key x (array xs) = none

-- v == text
abbrev pub is_string : Value → Str → Bool
is_string (string s) t = same s t
is_string null t = false
is_string (natural n) t = false
is_string (negative n) t = false
is_string (boolean b) t = false
is_string (array xs) t = false
is_string (object fs) t = false
