-- ===== src/LastUsed/JsonFiles.antt =====
-- core/Utils.cpp, readJSONFile and writeJSONFile with the nested values of the files of qmlwrap/QmlSystem.cpp,
-- where Seeds has the flat objects. The file system, and nlohmann's printer and parser, are parameters.
use avme_wallet.Base.{
  ltb, ◌==◌, if◌then◌else◌, ◌>>=◌, bind-eq-some, some_inj, Str, codes, is_empty, is_empty→nil, ◌≡◌,
  ap, ◌∙◌, ◌≢◌, inl, inr, Bool, true, false, ◌&&◌, ◌||◌, not, Option, some, [], ◌∷◌, ◌++◌,
}
use avme_wallet.Utils.Json.Tree.{
  Value, null, string, natural, negative, boolean, array, object, Items, end, item, Fields, done,
  member,
}
use avme_wallet.Seeds.{Result, ok, error, Written, stored, unseen, thrown}
use avme_wallet.Seeds.Stored.{Written-cases}

pub record Disk : Type 1 where
  pub World : Type 0
  pub exists : World → Str → Bool
  -- what the operator >> reads, or the text of its exception
  pub read : World → Str → Result Value
  pub write : World → Str → Value → Written × World
  pub create_directories : World → Str → World
  pub remove : World → Str → Bool × World

pub record Printer : Type 0 where
  pub dump : Value → Option Str
  pub parse : Str → Option Value

abbrev pub error_value : Str → Value
error_value what = object (member (codes "ERROR") (string what) done)

-- The order of the keys of an object, that of std::map<std::string, …>.
abbrev pub less : Str → Str → Bool
less s [] = false
less [] (d ∷ t) = true
less (c ∷ s) (d ∷ t) = ltb c d || ((c == d) && less s t)

abbrev pub below_all : Str → Fields → Bool
below_all key done = true
below_all key (member k v fs) = less key k

-- The members of each object stand in the order of their keys, as nlohmann keeps them.
unfoldable mutual
  pub in_order : Value → Bool
  in_order null = true
  in_order (string s) = true
  in_order (natural n) = true
  in_order (negative n) = true
  in_order (boolean b) = true
  in_order (array xs) = in_order_items xs
  in_order (object fs) = in_order_fields fs

  pub in_order_items : Items → Bool
  in_order_items end = true
  in_order_items (item v xs) = in_order v && in_order_items xs

  pub in_order_fields : Fields → Bool
  in_order_fields done = true
  in_order_fields (member k v fs) = in_order v && (below_all k fs && in_order_fields fs)

-- What is relied on of the files and of the printer.
pub record DiskLaws (F : Disk) (j : Printer) : Type 0 where
  pub read-write :
      (w w' : F.World) (path : Str) (v : Value)
      → in_order v ≡ true
      → F.write w path v ≡ (stored, w')
      → (F.exists w' path ≡ true) × (F.read w' path ≡ ok v) × (s : Str) × (j.dump v ≡ some s)
  pub parse-dump :
      (v : Value) (s : Str) → in_order v ≡ true → j.dump v ≡ some s → j.parse s ≡ some v
  pub dump_not_empty : (fs : Fields) → j.dump (object fs) ≢ some []
  -- a folder is made with the folders above it only, so nothing that stands in it
  pub exists-create_directories :
      (w : F.World) (folder name : Str)
      → F.exists (F.create_directories w folder) (folder ++ b'/' ∷ name)
        ≡ F.exists w (folder ++ b'/' ∷ name)
  pub read-create_directories :
      (w : F.World) (folder path : Str)
      → F.read (F.create_directories w folder) path ≡ F.read w path

module _ (F : Disk) (j : Printer) where
  -- json::parse(Utils::readJSONFile(path))
  unfoldable pub read_json : Str → F.World → Option Value
  read_json path w = do
    contents ←
        if not (F.exists w path)
        then j.dump (error_value (codes "FILE DOES NOT EXIST"))
        else elim (F.read w path) [ ok v ↦ j.dump v | error what ↦ j.dump (error_value what) ]
    j.parse contents

  -- Utils::writeJSONFile(v, path) == ""; the state of the stream is not read.
  unfoldable pub write_json : Str → Value → F.World → Option (Bool × F.World)
  write_json path v w =
      let (failure, w') = F.write w path v in
      elim failure [
        | stored ↦ some (true, w')
        | unseen ↦ some (true, w')
        | thrown what ↦ do e ← j.dump (error_value what); some (is_empty e, w')
      ]

  -- No opening and no writing of a file fails without an exception.
  abbrev pub WritesSeen : Type 0
  WritesSeen = (w : F.World) (path : Str) (v : Value) → (F.write w path v).0 ≢ unseen

  -- Then a write that is reported as a success was one.
  pub write_json-success :
      DiskLaws F j
      → WritesSeen
      → (path : Str) (v : Value) (w w' : F.World) → write_json path v w ≡ some (true, w')
      → F.write w path v ≡ (stored, w')
  unfolding write_json
  write_json-success laws seen path v w w' e =
      elim (Written-cases ((F.write w path v).0) (seen w path v)) [
        | inl e0 ↦
            let e1 = ap (λ x. x.1) (some_inj (rw (e0, write_json) at e)) in
            ap (λ x. (x, (F.write w path v).1)) e0 ∙ ap (λ x. (stored, x)) e1
        | inr (what, e0) ↦
            let (s, e_dump, e2) =
              bind-eq-some (j.dump (error_value what)) _ (rw (e0, write_json) at e) in
            let e3 : is_empty s ≡ true = ap (λ x. x.0) (some_inj e2) in
            absurd (laws.dump_not_empty _ (e_dump ∙ ap some (is_empty→nil s e3)))
      ]

  -- What a file that is there is read to.
  pub read_json-read :
      DiskLaws F j
      → (path : Str) (v : Value) (w : F.World) (s : Str) → in_order v ≡ true
      → F.exists w path ≡ true
      → F.read w path ≡ ok v
      → j.dump v ≡ some s
      → read_json path w ≡ some v
  unfolding read_json
  read_json-read laws path v w s sorted there e_read e_dump =
      rw (there, e_read, read_json) (rw e_dump (laws.parse-dump v s sorted e_dump))
