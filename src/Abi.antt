-- ===== src/Abi.antt =====
-- core/ABI.cpp: calls of contracts as hexadecimal texts, out of JSON. nlohmann's parser and keccak are
-- parameters. `none` is an exception; undefined behaviour of addressToHex, behind an address text of more
-- than 64 characters, is taken as one too.
pub mod Layout
pub mod Places
use avme_wallet.Base.{
  ◌==◌, if◌then◌else◌, ◌>>=◌, length, take, Str, codes, same, ℕ, zero, suc, ◌+◌, ◌*◌, Bool, true,
  false, ◌&&◌, ◌||◌, not, Option, none, some, List, [], ◌∷◌, ◌++◌,
}
use avme_wallet.Utils.Casts.{Casts}
use avme_wallet.Utils.Hex.{uint_to_hex, address_to_hex}
use avme_wallet.Utils.Bytes.{bytes_to_hex}
use avme_wallet.Utils.Rounding.{pos, abs, round_up}
use avme_wallet.Utils.Json.Tree.{
  Value, null, string, natural, negative, boolean, array, object, Items, end, item, Fields, done,
  member, as_string, index, index_item,
}

-- Utils::jsonToStr. A number with a fraction is left out.
unfoldable pub json_to_str : Casts → Value → Option Str
json_to_str c null = some (codes "null")
json_to_str c (boolean b) = some (if b then codes "1" else codes "0")
json_to_str c (natural n) = some (c.text n)
json_to_str c (negative n) = some (b'-' ∷ c.text n)
json_to_str c (string s) = some s
json_to_str c (array xs) = none
json_to_str c (object fs) = none

unfoldable pub json_to_strs : Casts → Items → Option (List Str)
json_to_strs c end = some []
json_to_strs c (item v xs) = do s ← json_to_str c v; rest ← json_to_strs c xs; some (s ∷ rest)

-- One argument; nothing is added for a type that is not known.
unfoldable pub encode_one : Casts → Str → Str → Option Str
encode_one c type argument =
    if same type (codes "uint*")
    then uint_to_hex c argument true
    else if same type (codes "address")
    then address_to_hex argument
    else if same type (codes "bytes")
    then bytes_to_hex c argument false
    else if same type (codes "bytes*")
    then bytes_to_hex c argument true
    else if same type (codes "string")
    then bytes_to_hex c argument false
    else if same type (codes "bool")
    then uint_to_hex c argument true
    else some []

unfoldable pub encode_each : Casts → Str → List Str → Option Str
encode_each c type [] = some []
encode_each c type (argument ∷ arguments) = do
  one ← encode_one c type argument
  rest ← encode_each c type arguments
  some (one ++ rest)

unfoldable pub encode_abi : Casts → Str → List Str → Bool → Option Str
encode_abi c type arguments is_array = do
  size ← if is_array then uint_to_hex c (c.text (length arguments)) true else some []
  rest ← encode_each c type arguments
  some (size ++ rest)

abbrev pub remove_byte : ℕ → Str → Str
remove_byte b [] = []
remove_byte b (c ∷ s) = let rest = remove_byte b s in if c == b then rest else c ∷ rest

-- The locals of encodeABIfromJson.
pub record Encoding : Type 0 where
  pub ret : Str
  pub arrays : Str
  pub array_start : ℕ

-- Whether the loop goes on, and the locals; an exception keeps what was done before it.
abbrev pub Round : Type 0
Round = Bool × Encoding

infixl 5 ◌then_do◌
abbrev pub ◌then_do◌ : Round → (Encoding → Round) → Round
(true, s) then_do f = f s
(false, s) then_do f = (false, s)

-- ret += text, or the exception of the text.
abbrev pub add_to_ret : Option Str → Encoding → Round
add_to_ret none s = (false, s)
add_to_ret (some text) s = (true, record s { ret = s.ret ++ text })

abbrev pub add_to_arrays : Option Str → Encoding → Round
add_to_arrays none s = (false, s)
add_to_arrays (some text) s = (true, record s { arrays = s.arrays ++ text })

abbrev pub move_start : ℕ → Encoding → Round
move_start n s = (true, record s { array_start = s.array_start + n })

-- The place of the data, and the data.
unfoldable pub add_placed : Casts → Option Str → Encoding → Round
add_placed c encoded s =
    add_to_ret (uint_to_hex c (c.text s.array_start) true) s then_do λ t. add_to_arrays encoded t

abbrev pub length_of : Option Str → ℕ
length_of none = 0
length_of (some s) = length s

-- A text and bytes are placed; the place behind them is counted in hexadecimal digits.
unfoldable pub is_placed : Str → Bool → Bool
is_placed type is_array = same type (codes "string") || (same type (codes "bytes") && not is_array)

unfoldable pub encode_argument : Casts → Str → List Str → Bool → Encoding → Round
encode_argument c type arguments is_array s =
    let encoded = encode_abi c type arguments is_array in
    (if is_array
      then (add_placed c encoded s then_do λ t. move_start (length arguments * 32 + 32) t)
      else (true, s))
    then_do λ t.
        if is_placed type is_array
        then (add_placed c encoded t then_do λ u.
            move_start (abs (round_up (pos (length_of encoded)) 32)) u)
        else if not is_array
        then add_to_ret encoded t
        else (true, t)

-- The type without its brackets and the texts of the elements, for an array; the type and the text of
-- the value for any other.
unfoldable pub read_argument : Casts → Value → Str → Option (Str × List Str × Bool)
read_argument c (array xs) type = do
  arguments ← json_to_strs c xs
  some (remove_byte b'[' (remove_byte b']' type), arguments, true)
read_argument c null type = do s ← json_to_str c null; some (type, s ∷ [], false)
read_argument c (string t) type = do s ← json_to_str c (string t); some (type, s ∷ [], false)
read_argument c (natural n) type = do s ← json_to_str c (natural n); some (type, s ∷ [], false)
read_argument c (negative n) type = do s ← json_to_str c (negative n); some (type, s ∷ [], false)
read_argument c (boolean b) type = do s ← json_to_str c (boolean b); some (type, s ∷ [], false)
read_argument c (object fs) type = do s ← json_to_str c (object fs); some (type, s ∷ [], false)

unfoldable pub argument_at : Casts → Value → Value → ℕ → Option (Str × List Str × Bool)
argument_at c arguments types i = do
  type_value ← index_item i types
  type ← as_string type_value
  argument ← index_item i arguments
  read_argument c argument type

abbrev pub encode_read : Casts → Option (Str × List Str × Bool) → Encoding → Round
encode_read c none s = (false, s)
encode_read c (some (type, arguments, is_array)) s = encode_argument c type arguments is_array s

-- The rounds that are left, from the argument `i` on.
unfoldable pub encode_arguments : Casts → Value → Value → ℕ → ℕ → Encoding → Round
encode_arguments c arguments types i zero s = (true, s)
encode_arguments c arguments types i (suc rounds) s =
    encode_read c (argument_at c arguments types i) s then_do λ t.
    encode_arguments c arguments types (suc i) rounds t

abbrev pub count_items : Items → ℕ
count_items end = 0
count_items (item v xs) = suc (count_items xs)

abbrev pub count_fields : Fields → ℕ
count_fields done = 0
count_fields (member k v fs) = suc (count_fields fs)

-- v.size()
abbrev pub size_of : Value → ℕ
size_of null = 0
size_of (array xs) = count_items xs
size_of (object fs) = count_fields fs
size_of (string s) = 1
size_of (natural n) = 1
size_of (negative n) = 1
size_of (boolean b) = 1

-- The arguments, the types and the name of the function.
unfoldable pub read_call : Value → Option (Value × Value × Str)
read_call abi_json = do
  arguments ← index (codes "args") abi_json
  types ← index (codes "types") abi_json
  function ← index (codes "function") abi_json
  name ← as_string function
  some (arguments, types, name)

abbrev pub encode_call : Casts → (Str → Str) → Option (Value × Value × Str) → Str
encode_call c digest_hex none = codes "0x"
encode_call c digest_hex (some (arguments, types, name)) =
    let start : Encoding = record {
      ret = codes "0x" ++ take 8 (digest_hex name);
      arrays = [];
      array_start = 32 * size_of arguments;
    } in
    let s = (encode_arguments c arguments types 0 (size_of arguments) start).1 in s.ret ++ s.arrays

-- `digest_hex` is toHex(dev::sha3(…)). An exception is logged, and what was made so far is returned.
unfoldable pub encode_abi_from_json : Casts → (Str → Option Value) → (Str → Str) → Str → Str
encode_abi_from_json c parse digest_hex json_str =
    encode_call c digest_hex (do abi_json ← parse json_str; read_call abi_json)
