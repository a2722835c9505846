-- ===== src/Tests/Origins.antt =====
-- qmlwrap/QmlServer.cpp at concrete inputs.
use avme_wallet.Base.{
  some_inj, Str, codes, zero, suc, ◌≡◌, refl, sym, ap, true, false, Option, none, some, [], ◌∷◌,
}
use avme_wallet.Database.Operations as Operations
use avme_wallet.Database.Config as Config
use avme_wallet.Utils.Json.Tree.{
  Value, null, string, natural, negative, boolean, array, object, Fields, done, member, at_field,
}
use avme_wallet.Api.{Node}
use avme_wallet.Sites.Stored.{HasDistinctKeys, NodeLaws}
use avme_wallet.Sites.Requests.{User, Running, replied, returned, thrown, waiting, demand}
use avme_wallet.Sites.{
  System, contains_text, permissions_key, permission_items, stored_permissions, loaded_list,
  load_permission_list, stored_list, store_and_load, add_to_permission_list,
}
use avme_wallet.Sites.Grants.{WritesSucceed, add_to_permission_list-permission_of}
use avme_wallet.Sites.Handler.{
  permission_of, Outcome, no_origin, check_permission, reply, serve, decide, handle_object,
}
use avme_wallet.Database.{ok, Database}
use avme_wallet.Wallet.Stores.{get_config_value, set_config_value}
use avme_wallet.Sites.Lost.{add_to_permission_list_lost}
use avme_wallet.Sites.Locks.{handle_object_no_origin}
use avme_wallet.Tests.Disks.{disks, disks-LeveldbLaws}
use avme_wallet.Sites.Safety.{accounts, IsPermitted, handle_object-IsPermitted}

-- Objects of one flag as the flag and the key; null as the empty text. Other values are not printed.
abbrev print_flag : Str → Value → Fields → Option Str
print_flag key (boolean true) done = some (1 ∷ key)
print_flag key (boolean false) done = some (0 ∷ key)
print_flag key v fs = none

abbrev print_json : Value → Option Str
print_json null = some []
print_json (object (member key v fs)) = print_flag key v fs
print_json (array xs) = some (codes "[]")
print_json v = none

abbrev parse_json : Str → Option Value
parse_json [] = some null
parse_json (zero ∷ key) = some (object (member key (boolean false) done))
parse_json (suc n ∷ key) = some (object (member key (boolean true) done))

abbrev flags : Node
flags = record { dump = print_json; parse = parse_json; http = λ s. s }

IsReadBack : Fields → Str → Type 0
IsReadBack fs s =
    (gs : Fields) × (parse_json s ≡ some (object gs))
    × HasDistinctKeys gs
    × ((key : Str) → at_field key gs ≡ at_field key fs)

read_back :
    (key : Str) (v : Value) (fs : Fields) (s : Str)
    → print_flag key v fs ≡ some s
    → IsReadBack (member key v fs) s
unfolding IsReadBack
read_back key (boolean true) done s e =
    (member key (boolean true) done, ap parse_json (sym (some_inj e)), (refl, tt), λ k. refl)
read_back key (boolean false) done s e =
    (member key (boolean false) done, ap parse_json (sym (some_inj e)), (refl, tt), λ k. refl)
read_back key (boolean true) (member k v fs) s e = cc
read_back key (boolean false) (member k v fs) s e = cc
read_back key null fs s e = cc
read_back key (string t) fs s e = cc
read_back key (natural n) fs s e = cc
read_back key (negative n) fs s e = cc
read_back key (array xs) fs s e = cc
read_back key (object gs) fs s e = cc

print_then_parse :
    (fs : Fields) (s : Str)
    → print_json (object fs) ≡ some s
    → (gs : Fields) × (parse_json s ≡ some (object gs))
      × HasDistinctKeys gs
      × ((key : Str) → at_field key gs ≡ at_field key fs)
unfolding IsReadBack
print_then_parse done s e = cc
print_then_parse (member key v fs) s e = read_back key v fs s e

flags-NodeLaws : NodeLaws flags
flags-NodeLaws = record { parse-dump = print_then_parse }

abbrev origin : Str
origin = codes "dapp.example"

-- The settings are open and empty.
abbrev settings : Database disks
settings = record {
  disk = λ p. [];
  handles = λ t. record { db = some (codes "c"); status = ok; value = [] };
}

abbrev fresh : System disks
fresh = record {
  db = settings;
  permission_list = [];
  permission_locked = false;
  dialog_locked = false;
}

abbrev system_or : Option (System disks) → System disks
system_or none = fresh
system_or (some sys) = sys

abbrev granted : System disks
granted = system_or (add_to_permission_list disks flags origin true fresh)

abbrev text_of : Option (Str × Database disks) → Str
text_of none = []
text_of (some r) = r.0

abbrev db_of : Option (Str × Database disks) → Database disks
db_of none = settings
db_of (some r) = r.1

writes : WritesSucceed disks (codes "c")
writes disk value = (_, refl)

add_to_permission_list-permission_of_example :
    (permission_of origin (System.permission_list granted) false ≡ true)
    × (permission_of origin
          (System.permission_list (system_or (load_permission_list disks flags granted)))
          false
        ≡ true)
unfolding add_to_permission_list store_and_load load_permission_list loaded_list stored_list
    contains_text stored_permissions permission_items get_config_value set_config_value
    Config.get_value Config.put_value Operations.get_value Operations.put_value
add_to_permission_list-permission_of_example =
    add_to_permission_list-permission_of disks disks-LeveldbLaws flags flags-NodeLaws (codes "c")
      origin (1 ∷ origin) true fresh granted granted
      (system_or (load_permission_list disks flags granted))
      (db_of (get_config_value disks permissions_key granted.db)) refl writes refl refl refl refl
      refl

abbrev odd_origin : Str
odd_origin = codes "NotFound.example"

abbrev lost : System disks
lost = system_or (add_to_permission_list disks flags odd_origin true fresh)

add_to_permission_list_lost_example : System.permission_list lost ≡ []
unfolding add_to_permission_list store_and_load load_permission_list loaded_list stored_list
    contains_text stored_permissions permission_items get_config_value set_config_value
    Config.get_value Config.put_value Operations.get_value Operations.put_value
add_to_permission_list_lost_example =
    add_to_permission_list_lost disks disks-LeveldbLaws flags (codes "c") odd_origin
      (1 ∷ odd_origin) true fresh lost (db_of (get_config_value disks permissions_key lost.db)) refl
      writes refl refl refl

-- A node that prints every value alike.
abbrev talker : Node
talker = record { dump = λ v. some (codes "reply"); parse = λ s. none; http = λ s. s }

abbrev user : User
user = record { allows = true; transaction = (true, codes "0x1"); signing = (true, codes "0x2") }

abbrev running : Running
running = record { before_request = true; behind_request = true; at_reply = true }

abbrev accounts_request : Fields
accounts_request =
    member (codes "method") (string (codes "eth_accounts"))
      (member (codes "__frameOrigin") (string origin) done)

abbrev nameless_request : Fields
nameless_request = member (codes "method") (string (codes "eth_accounts")) done

abbrev trusting : System disks
trusting = record fresh { permission_list = (origin, true) ∷ [] }

abbrev served : Outcome disks
served = record { events = replied (codes "reply") ∷ []; ending = returned; system = trusting }

handle_object-IsPermitted_example : IsPermitted disks accounts_request trusting
unfolding handle_object demand check_permission decide serve reply
handle_object-IsPermitted_example =
    handle_object-IsPermitted disks talker running user (codes "0xab") accounts_request accounts
      trusting served refl refl refl

abbrev left_locked : System disks
left_locked = record trusting { permission_locked = true }

handle_object_no_origin_example :
    handle_object disks talker running user (codes "0xab") accounts_request left_locked
    ≡ some (record { events = []; ending = waiting; system = left_locked })
unfolding handle_object demand check_permission no_origin decide
handle_object_no_origin_example =
    handle_object_no_origin disks talker talker running running user user (codes "0xab")
      (codes "0xab") nameless_request accounts_request trusting
      (record { events = []; ending = thrown; system = left_locked }) refl refl refl refl
