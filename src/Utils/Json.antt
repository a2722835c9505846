-- ===== src/Utils/Json.antt =====
-- What the wallet takes from nlohmann's json: objects of texts, numbers and flags, printed and parsed.
-- An object is the list of its keys with their values, in the order of the assignments. `none` is an
-- exception, of dump for a text that is not UTF-8 and of parse for a text that is not an object.
pub mod Tree
use avme_wallet.Base.{
  if◌then◌else◌, ◌>>=◌, Str, same, ℕ, ◌≡◌, Bool, Option, none, some, List, [], ◌∷◌,
}

pub data JsonValue : Type 0 where
  text : Str → JsonValue
  number : ℕ → JsonValue
  flag : Bool → JsonValue

abbrev pub JsonObject : Type 0
JsonObject = List (Str × JsonValue)

abbrev pub field : Str → JsonObject → Option JsonValue
field key [] = none
field key ((k, v) ∷ o) = if same k key then some v else field key o

-- o[key].get<std::string>()
abbrev pub text_field : Str → JsonObject → Option Str
text_field key o = do v ← field key o; elim v [ text s ↦ some s | number n ↦ none | flag b ↦ none ]

-- o[key].get<int>()
abbrev pub number_field : Str → JsonObject → Option ℕ
number_field key o = do
  v ← field key o
  elim v [ text s ↦ none | number n ↦ some n | flag b ↦ some (if b then 1 else 0) ]

-- o[key].get<bool>()
abbrev pub flag_field : Str → JsonObject → Option Bool
flag_field key o = do v ← field key o; elim v [ text s ↦ none | number n ↦ none | flag b ↦ some b ]

pub record Json : Type 0 where
  pub dump : JsonObject → Option Str
  pub parse : Str → Option JsonObject

-- What is printed is parsed to an object with the same fields.
pub record JsonLaws (j : Json) : Type 0 where
  pub parse-dump :
      (o : JsonObject) (s : Str)
      → j.dump o ≡ some s
      → (p : JsonObject) × (j.parse s ≡ some p) × ((key : Str) → field key p ≡ field key o)
