-- ===== src/Abi/Layout.antt =====
-- Where the arguments of a call stand in the text that is made of them.
use avme_wallet.Base.{
  ◌>>=◌, bind-eq-some, some_inj, length, length-append, All, Str, codes, strip_0x, ℕ, ◌+◌, ◌*◌, ◌<◌,
  ◌≡◌, refl, sym, ap, ◌∙◌, inl, inr, Bool, true, false, Option, none, some, List, [], ◌∷◌, ◌++◌,
  map, append-nil, arith,
}
use avme_wallet.Utils.Casts.{Casts, u256_mod, CastLaws}
use avme_wallet.Utils.Hex.{uint_to_hex, address_to_hex}
use avme_wallet.Utils.Hex.Words.{length-pad_left, uint_to_hex-word, length-uint_to_hex}
use avme_wallet.Utils.Json.Tree.{Value, string, array, items, as_string, item_at}
use avme_wallet.Abi.{
  json_to_str, json_to_strs, encode_one, encode_each, encode_abi, remove_byte, Encoding, add_placed,
  is_placed, encode_argument, read_argument, argument_at, encode_read,
}
use avme_wallet.Utils.Case.{to_lower}

-- The types whose values are one word.
pub data Kind : Type 0 where
  uint : Kind
  address : Kind
  bool : Kind

abbrev pub kind_text : Kind → Str
kind_text uint = codes "uint*"
kind_text address = codes "address"
kind_text bool = codes "bool"

pub data Argument : Type 0 where
  single : Kind → Str → Argument
  many : Kind → List Str → Argument

abbrev pub argument_value : Argument → Value
argument_value (single k s) = string s
argument_value (many k ss) = array (items (map string ss))

abbrev pub type_value : Argument → Value
type_value (single k s) = string (kind_text k)
type_value (many k ss) = string (kind_text k ++ codes "[]")

abbrev pub word_of : Casts → Kind → Str → Option Str
word_of c uint s = uint_to_hex c s true
word_of c address s = address_to_hex s
word_of c bool s = uint_to_hex c s true

abbrev pub HasWord : Casts → Kind → Str → Type 0
HasWord c k s = (w : Str) × (word_of c k s ≡ some w)

abbrev pub HasWords : Casts → Argument → Type 0
HasWords c (single k s) = HasWord c k s
HasWords c (many k ss) = All (HasWord c k) ss

-- The bytes of the data behind the first words.
abbrev pub data_size : Argument → ℕ
data_size (single k s) = 0
data_size (many k ss) = length ss * 32 + 32

abbrev pub data_sizes : List Argument → ℕ
data_sizes [] = 0
data_sizes (a ∷ args) = data_size a + data_sizes args

encode_one-word : (c : Casts) (k : Kind) (s : Str) → encode_one c (kind_text k) s ≡ word_of c k s
unfolding encode_one
encode_one-word c uint s = refl
encode_one-word c address s = refl
encode_one-word c bool s = refl

pub length-word_of :
    (c : Casts) (k : Kind) (s : Str) {w : Str} → word_of c k s ≡ some w → length w ≡ 64
unfolding address_to_hex
length-word_of c uint s e = length-uint_to_hex c s e
length-word_of c address s e = (length-pad_left (map to_lower (strip_0x s)) e).1
length-word_of c bool s e = length-uint_to_hex c s e

encode_each_words :
    (c : Casts) (k : Kind) (ss : List Str)
    → All (HasWord c k) ss
    → (d : Str) × (encode_each c (kind_text k) ss ≡ some d) × (length d ≡ length ss * 64)
unfolding encode_each
encode_each_words c k [] h = ([], refl, refl)
encode_each_words c k (s ∷ ss) ((w, e), h) =
    let (d, e_d, size) = encode_each_words c k ss h in
    (
      w ++ d,
      rw (encode_one-word c k s, e, e_d) refl,
      omega (arith, length-append w d, length-word_of c k s e),
    )

-- The words of the values of an array, one behind the other.
abbrev pub words_of : Casts → Kind → List Str → Option Str
words_of c k [] = some []
words_of c k (s ∷ ss) = do w ← word_of c k s; rest ← words_of c k ss; some (w ++ rest)

encode_each-words_of :
    (c : Casts) (k : Kind) (ss : List Str) → encode_each c (kind_text k) ss ≡ words_of c k ss
unfolding encode_each
encode_each-words_of c k [] = refl
encode_each-words_of c k (s ∷ ss) = rw (encode_one-word c k s, encode_each-words_of c k ss) refl

length-words_of :
    (c : Casts) (k : Kind) (ss : List Str) (e : Str)
    → words_of c k ss ≡ some e
    → length e ≡ 64 * length ss
length-words_of c k [] e eq = omega (arith, ap length (some_inj (sym eq)))
length-words_of c k (s ∷ ss) e eq =
    let (w, e_w, eq₁) = bind-eq-some (word_of c k s) _ eq in
    let (rest, e_rest, eq₂) = bind-eq-some (words_of c k ss) _ eq₁ in
    omega (
      arith,
      ap length (some_inj (sym eq₂)),
      length-append w rest,
      length-word_of c k s e_w,
      length-words_of c k ss rest e_rest,
    )

-- The length of an array comes first, and then its words.
pub encode_abi-words_of :
    (c : Casts) (k : Kind) (ss : List Str) (d : Str)
    → encode_abi c (kind_text k) ss true ≡ some d
    → (w e : Str) × (uint_to_hex c (c.text (length ss)) true ≡ some w)
      × (length w ≡ 64)
      × (words_of c k ss ≡ some e)
      × (length e ≡ 64 * length ss)
      × (d ≡ w ++ e)
unfolding encode_abi
encode_abi-words_of c k ss d eq =
    let (w, e_w, eq₁) = bind-eq-some (uint_to_hex c (c.text (length ss)) true) _ eq in
    let (e, e_e, eq₂) = bind-eq-some (encode_each c (kind_text k) ss) _ eq₁ in
    let words = sym (encode_each-words_of c k ss) ∙ e_e in
    (
      w,
      e,
      e_w,
      length-uint_to_hex c (c.text (length ss)) e_w,
      words,
      length-words_of c k ss e words,
      sym (some_inj eq₂),
    )

pub uint_to_hex_small :
    (c : Casts)
    → CastLaws c
    → (n : ℕ) → n < u256_mod
    → (w : Str) × (uint_to_hex c (c.text n) true ≡ some w) × (length w ≡ 64)
uint_to_hex_small c laws n h = elim (uint_to_hex-word c laws (c.text n)) [
  | inl (m, _, e) ↦ (_, e, length-uint_to_hex c (c.text n) e)
  | inr (e, _) ↦ let bad : none ≡ some n = sym e ∙ laws.cast_u256-text n h in cc
]

-- The data of an array: the word of its length and the words of its elements.
pub encode_abi_many :
    (c : Casts)
    → CastLaws c
    → (k : Kind) (ss : List Str) → All (HasWord c k) ss
    → length ss < u256_mod
    → (d : Str) × (encode_abi c (kind_text k) ss true ≡ some d)
      × (length d ≡ 2 * (length ss * 32 + 32))
unfolding encode_abi
encode_abi_many c laws k ss h small =
    let (w, e_w, size_w) = uint_to_hex_small c laws (length ss) small in
    let (d, e_d, size_d) = encode_each_words c k ss h in
    (w ++ d, rw (e_w, e_d) refl, omega (arith, length-append w d, size_w, size_d))

encode_abi_single :
    (c : Casts) (k : Kind) (s w : Str)
    → word_of c k s ≡ some w
    → encode_abi c (kind_text k) (s ∷ []) false ≡ some w
unfolding encode_abi encode_each
encode_abi_single c k s w e = rw (encode_one-word c k s, e) (ap some (append-nil w))

remove_brackets :
    (k : Kind) → remove_byte b'[' (remove_byte b']' (kind_text k ++ codes "[]")) ≡ kind_text k
remove_brackets uint = refl
remove_brackets address = refl
remove_brackets bool = refl

json_to_strs_texts : (c : Casts) (ss : List Str) → json_to_strs c (items (map string ss)) ≡ some ss
unfolding json_to_strs json_to_str
json_to_strs_texts c [] = refl
json_to_strs_texts c (s ∷ ss) = rw (json_to_strs_texts c ss) refl

not_placed : (k : Kind) (b : Bool) → is_placed (kind_text k) b ≡ false
unfolding is_placed
not_placed uint b = refl
not_placed address b = refl
not_placed bool b = refl

pub encode_argument_single :
    (c : Casts) (k : Kind) (text w : Str) (s : Encoding)
    → word_of c k text ≡ some w
    → encode_argument c (kind_text k) (text ∷ []) false s ≡ (true, record s { ret = s.ret ++ w })
unfolding encode_argument
encode_argument_single c k text w s e =
    rw (encode_argument, not_placed k false, encode_abi_single c k text w e) refl

pub encode_argument_many :
    (c : Casts) (k : Kind) (ss : List Str) (o d : Str) (s : Encoding)
    → uint_to_hex c (c.text s.array_start) true ≡ some o
    → encode_abi c (kind_text k) ss true ≡ some d
    → encode_argument c (kind_text k) ss true s ≡ (
      true,
      record {
        ret = s.ret ++ o;
        arrays = s.arrays ++ d;
        array_start = s.array_start + (length ss * 32 + 32);
      },
    )
unfolding encode_argument add_placed
encode_argument_many c k ss o d s e_o e_d =
    rw (encode_argument, not_placed k true, add_placed, e_d, e_o) refl

-- What is added to the two texts for a list of arguments, from a place for data on.
abbrev pub Laid : Casts → List Argument → Str → Str → ℕ → Type 0
Laid c [] heads tails start = (heads ≡ []) × (tails ≡ [])
Laid c (single k s ∷ args) heads tails start =
    (w : Str) × (hs : Str) × (word_of c k s ≡ some w)
    × (heads ≡ w ++ hs)
    × Laid c args hs tails start
Laid c (many k ss ∷ args) heads tails start =
    (o : Str) × (d : Str) × (hs : Str) × (ts : Str) × (uint_to_hex c (c.text start) true ≡ some o)
    × (encode_abi c (kind_text k) ss true ≡ some d)
    × (length d ≡ 2 * data_size (many k ss))
    × (heads ≡ o ++ hs)
    × (tails ≡ d ++ ts)
    × Laid c args hs ts (start + data_size (many k ss))

item_at-append :
    (f : Argument → Value) (before : List Argument) (a : Argument) (rest : List Argument)
    → item_at (length before) (items (map f (before ++ a ∷ rest))) ≡ f a
item_at-append f [] a rest = refl
item_at-append f (b ∷ before) a rest = item_at-append f before a rest

pub argument_at-append :
    (c : Casts) (before : List Argument) (a : Argument) (rest : List Argument)
    → argument_at c
        (array (items (map argument_value (before ++ a ∷ rest))))
        (array (items (map type_value (before ++ a ∷ rest))))
        (length before)
      ≡ (do type ← as_string (type_value a); read_argument c (argument_value a) type)
unfolding argument_at
argument_at-append c before a rest =
    rw (item_at-append type_value before a rest, item_at-append argument_value before a rest) refl

pub encode_read_single :
    (c : Casts) (k : Kind) (text : Str) (s : Encoding)
    → encode_read c
        (do
          type ← as_string (type_value (single k text))
          read_argument c (argument_value (single k text)) type)
        s
      ≡ encode_argument c (kind_text k) (text ∷ []) false s
unfolding read_argument json_to_str
encode_read_single c k text s = refl

pub encode_read_many :
    (c : Casts) (k : Kind) (ss : List Str) (s : Encoding)
    → encode_read c
        (do
          type ← as_string (type_value (many k ss))
          read_argument c (argument_value (many k ss)) type)
        s
      ≡ encode_argument c (kind_text k) ss true s
unfolding read_argument
encode_read_many c k ss s = rw (json_to_strs_texts c ss, remove_brackets k) refl
