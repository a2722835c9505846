-- ===== src/Tests/Objects.antt =====
-- A printer and a parser of objects: a field is its key, its kind and its value, and texts stand
-- behind their length.
use avme_wallet.Base.{
  ◌==◌, if◌then◌else◌, ◌>>=◌, some_inj, length, take, drop, length-append, Str, ℕ, zero, suc, ◌≤◌,
  ◌≡◌, refl, ap, ◌∙◌, true, false, Option, none, some, [], ◌∷◌, ◌++◌, arith,
}
use avme_wallet.Utils.Json.{JsonValue, text, number, flag, JsonObject, Json, JsonLaws}

abbrev print_text : Str → Str
print_text s = length s ∷ s

abbrev print_value : JsonValue → Str
print_value (text s) = 0 ∷ print_text s
print_value (number n) = 1 ∷ n ∷ []
print_value (flag false) = 2 ∷ 0 ∷ []
print_value (flag true) = 3 ∷ 0 ∷ []

unfoldable pub print_object : JsonObject → Str
print_object [] = []
print_object ((k, v) ∷ o) = print_text k ++ (print_value v ++ print_object o)

abbrev read_text : Str → Option (Str × Str)
read_text [] = none
read_text (n ∷ s) = some (take n s, drop n s)

abbrev read_value : Str → Option (JsonValue × Str)
read_value [] = none
read_value (k ∷ []) = none
read_value (k ∷ n ∷ s) =
    if k == 0
    then some (text (take n s), drop n s)
    else if k == 1
    then some (number n, s)
    else if k == 2
    then some (flag false, s)
    else some (flag true, s)

unfoldable pub read_object : ℕ → Str → Option JsonObject
read_object fuel [] = some []
read_object zero (n ∷ s) = none
read_object (suc fuel) (n ∷ s) = do
  key ← read_text (n ∷ s)
  value ← read_value (key.1)
  rest ← read_object fuel (value.1)
  some ((key.0, value.0) ∷ rest)

abbrev pub objects : Json
objects = record { dump = λ o. some (print_object o); parse = λ s. read_object (length s) s }

split-append :
    (s rest : Str) → (take (length s) (s ++ rest) ≡ s) × (drop (length s) (s ++ rest) ≡ rest)
split-append [] rest = (refl, refl)
split-append (c ∷ s) rest = let (t, d) = split-append s rest in (ap (◌∷◌ c) t, d)

read_value-print :
    (v : JsonValue) (rest : Str) → read_value (print_value v ++ rest) ≡ some (v, rest)
read_value-print (text s) rest = let (t, d) = split-append s rest in rw (t, d) refl
read_value-print (number n) rest = refl
read_value-print (flag true) rest = refl
read_value-print (flag false) rest = refl

read_object-step :
    (fuel : ℕ) (k : Str) (v : JsonValue) (tail : Str)
    → read_object (suc fuel) (print_text k ++ (print_value v ++ tail))
      ≡ (read_object fuel tail >>= λ rest. some ((k, v) ∷ rest))
unfolding read_object
read_object-step fuel k v tail =
    let (t, d) = split-append k (print_value v ++ tail) in rw (t, d, read_value-print v tail) refl

read_object-print :
    (fuel : ℕ) (o : JsonObject) → length o ≤ fuel → read_object fuel (print_object o) ≡ some o
unfolding print_object read_object
read_object-print zero [] h = refl
read_object-print (suc fuel) [] h = refl
read_object-print zero (f ∷ o) h = absurd (omega arith)
read_object-print (suc fuel) ((k, v) ∷ o) h =
    read_object-step fuel k v (print_object o)
    ∙ ap (λ r. r >>= λ rest. some ((k, v) ∷ rest)) (read_object-print fuel o (omega arith))

length-print_object : (o : JsonObject) → length o ≤ length (print_object o)
unfolding print_object
length-print_object [] = omega arith
length-print_object ((k, v) ∷ o) = omega (
  arith,
  length-print_object o,
  length-append k (print_value v ++ print_object o),
  length-append (print_value v) (print_object o),
)

pub objects-JsonLaws : JsonLaws objects
objects-JsonLaws = record {
  parse-dump = λ o s e. (
    o,
    rw (← some_inj e) (read_object-print (length (print_object o)) o (length-print_object o)),
    λ key. refl,
  );
}
