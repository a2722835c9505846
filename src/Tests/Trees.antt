-- ===== src/Tests/Trees.antt =====
-- A printer of nested values whose texts are read back: each value by its constructor, and each text
-- behind its length.
use avme_wallet.Base.{
  ◌==◌, if◌then◌else◌, length, take, drop, Str, ℕ, zero, suc, ◌+◌, ◌≤◌, ◌≡◌, refl, ap, ◌≢◌, true,
  false, Option, none, some, [], ◌∷◌, ◌++◌, arith,
}
use avme_wallet.Utils.Json.Tree.{
  Value, null, string, natural, negative, boolean, array, object, Items, end, item, Fields, done,
  member,
}
use avme_wallet.LastUsed.JsonFiles.{Printer}

abbrev print_text : Str → Str → Str
print_text s rest = length s ∷ (s ++ rest)

mutual
  print_value : Value → Str → Str
  print_value null rest = 0 ∷ rest
  print_value (string s) rest = 1 ∷ print_text s rest
  print_value (natural n) rest = 2 ∷ n ∷ rest
  print_value (negative n) rest = 3 ∷ n ∷ rest
  print_value (boolean b) rest = (if b then 5 else 4) ∷ rest
  print_value (array xs) rest = 6 ∷ print_items xs rest
  print_value (object fs) rest = 7 ∷ print_fields fs rest

  print_items : Items → Str → Str
  print_items end rest = 0 ∷ rest
  print_items (item v xs) rest = 1 ∷ print_value v (print_items xs rest)

  print_fields : Fields → Str → Str
  print_fields done rest = 0 ∷ rest
  print_fields (member k v fs) rest = 1 ∷ print_text k (print_value v (print_fields fs rest))

mutual
  size : Value → ℕ
  size null = 1
  size (string s) = 1
  size (natural n) = 1
  size (negative n) = 1
  size (boolean b) = 1
  size (array xs) = suc (size_items xs)
  size (object fs) = suc (size_fields fs)

  size_items : Items → ℕ
  size_items end = 1
  size_items (item v xs) = suc (size v + size_items xs)

  size_fields : Fields → ℕ
  size_fields done = 1
  size_fields (member k v fs) = suc (size v + size_fields fs)

abbrev read_text : Str → Str × Str
read_text [] = ([], [])
read_text (n ∷ s) = (take n s, drop n s)

abbrev read_number : Str → ℕ × Str
read_number [] = (0, [])
read_number (n ∷ s) = (n, s)

mutual
  read_value : ℕ → Str → Value × Str
  read_value zero s = (null, s)
  read_value (suc f) [] = (null, [])
  read_value (suc f) (c ∷ s) =
      if c == 0
      then (null, s)
      else if c == 1
      then (string ((read_text s).0), (read_text s).1)
      else if c == 2
      then (natural ((read_number s).0), (read_number s).1)
      else if c == 3
      then (negative ((read_number s).0), (read_number s).1)
      else if c == 4
      then (boolean false, s)
      else if c == 5
      then (boolean true, s)
      else let xs = read_items f s in
        let fs = read_fields f s in if c == 6 then (array (xs.0), xs.1) else (object (fs.0), fs.1)

  read_items : ℕ → Str → Items × Str
  read_items zero s = (end, s)
  read_items (suc f) [] = (end, [])
  read_items (suc f) (c ∷ s) =
      let v = read_value f s in
      let xs = read_items f (v.1) in if c == 0 then (end, s) else (item (v.0) (xs.0), xs.1)

  read_fields : ℕ → Str → Fields × Str
  read_fields zero s = (done, s)
  read_fields (suc f) [] = (done, [])
  read_fields (suc f) (c ∷ s) =
      let k = read_text s in
      let v = read_value f (k.1) in
      let fs = read_fields f (v.1) in
      if c == 0 then (done, s) else (member (k.0) (v.0) (fs.0), fs.1)

take-length : (s rest : Str) → take (length s) (s ++ rest) ≡ s
take-length [] rest = refl
take-length (c ∷ s) rest = ap (◌∷◌ c) (take-length s rest)

drop-length : (s rest : Str) → drop (length s) (s ++ rest) ≡ rest
drop-length [] rest = refl
drop-length (c ∷ s) rest = drop-length s rest

mutual
  unfolding read_value read_items read_fields print_value print_items print_fields size size_items
      size_fields

  read_value-print :
      (f : ℕ) (v : Value) (rest : Str) → size v ≤ f → read_value f (print_value v rest) ≡ (v, rest)
  read_value-print zero null rest h = absurd (omega arith)
  read_value-print zero (string s) rest h = absurd (omega arith)
  read_value-print zero (natural n) rest h = absurd (omega arith)
  read_value-print zero (negative n) rest h = absurd (omega arith)
  read_value-print zero (boolean b) rest h = absurd (omega arith)
  read_value-print zero (array xs) rest h = absurd (omega arith)
  read_value-print zero (object fs) rest h = absurd (omega arith)
  read_value-print (suc f) null rest h = refl
  read_value-print (suc f) (string s) rest h = rw (take-length s rest, drop-length s rest) refl
  read_value-print (suc f) (natural n) rest h = refl
  read_value-print (suc f) (negative n) rest h = refl
  read_value-print (suc f) (boolean true) rest h = refl
  read_value-print (suc f) (boolean false) rest h = refl
  read_value-print (suc f) (array xs) rest h = rw (read_items-print f xs rest (omega arith)) refl
  read_value-print (suc f) (object fs) rest h = rw (read_fields-print f fs rest (omega arith)) refl

  read_items-print :
      (f : ℕ) (xs : Items) (rest : Str)
      → size_items xs ≤ f
      → read_items f (print_items xs rest) ≡ (xs, rest)
  read_items-print zero end rest h = absurd (omega arith)
  read_items-print zero (item v xs) rest h = absurd (omega arith)
  read_items-print (suc f) end rest h = refl
  read_items-print (suc f) (item v xs) rest h =
      rw
        (
          read_value-print f v (print_items xs rest) (omega arith),
          read_items-print f xs rest (omega arith),
        )
        refl

  read_fields-print :
      (f : ℕ) (fs : Fields) (rest : Str)
      → size_fields fs ≤ f
      → read_fields f (print_fields fs rest) ≡ (fs, rest)
  read_fields-print zero done rest h = absurd (omega arith)
  read_fields-print zero (member k v fs) rest h = absurd (omega arith)
  read_fields-print (suc f) done rest h = refl
  read_fields-print (suc f) (member k v fs) rest h =
      rw
        (
          take-length k (print_value v (print_fields fs rest)),
          drop-length k (print_value v (print_fields fs rest)),
          read_value-print f v (print_fields fs rest) (omega arith),
          read_fields-print f fs rest (omega arith),
        )
        refl

unfoldable pub print_tree : Value → Str
unfolding print_value print_items print_fields size size_items size_fields
print_tree v = size v ∷ print_value v []

unfoldable pub parse_tree : Str → Option Value
unfolding read_value read_items read_fields
parse_tree [] = none
parse_tree (n ∷ s) = some ((read_value n s).0)

abbrev pub trees : Printer
trees = record { dump = λ v. some (print_tree v); parse = parse_tree }

pub parse_tree-print : (v : Value) → parse_tree (print_tree v) ≡ some v
unfolding parse_tree print_tree
parse_tree-print v =
    let e : read_value (size v) (print_value v []) ≡ (v, []) =
      read_value-print (size v) v [] (omega arith) in
    ap (λ r. some (r.0)) e

pub tree_text_not_empty : (v : Value) → print_tree v ≢ []
unfolding print_tree
tree_text_not_empty v e = cc
