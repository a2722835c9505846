-- ===== src/Sites/Stored.antt =====
-- What is read back of a list of permissions that was written as JSON.
use avme_wallet.Base.{
  Bool-cases, or_inv, bind-eq-some, some_inj, Str, same, same→eq, same_sym, same_refl, ◌≡◌, refl,
  sym, ◌∙◌, inl, inr, Bool, false, some, List,
}
use avme_wallet.Utils.Json.Tree.{
  Value, null, string, natural, negative, boolean, array, object, Fields, done, member, at_field,
  has_field, assign_field, assign,
}
use avme_wallet.Api.{Node}
use avme_wallet.Sites.{permission_items, stored_permissions}
use avme_wallet.Sites.Handler.{permission_of}

-- The keys of an object, each once.
abbrev pub HasDistinctKeys : Fields → Type 0
HasDistinctKeys done = Unit
HasDistinctKeys (member key v fs) = (has_field key fs ≡ false) × HasDistinctKeys fs

-- What nlohmann's json documents: what an object is printed to is parsed to an object whose keys are
-- there once and whose members are those of the object.
pub record NodeLaws (node : Node) : Type 0 where
  pub parse-dump :
      (fs : Fields) (s : Str)
      → node.dump (object fs) ≡ some s
      → (gs : Fields) × (node.parse s ≡ some (object gs))
        × HasDistinctKeys gs
        × ((key : Str) → at_field key gs ≡ at_field key fs)

-- Without the site in the rest, the loop ends with what it has.
permission_of_unlisted :
    (website : Str) (fs : Fields) (list : List (Str × Bool)) (permission : Bool)
    → permission_items fs ≡ some list
    → has_field website fs ≡ false
    → permission_of website list permission ≡ permission
unfolding permission_items
permission_of_unlisted website done list permission e h = rw (sym (some_inj e)) refl
permission_of_unlisted website (member w (boolean allow) fs) list permission e h =
    let (rest, e_rest, e') = bind-eq-some (permission_items fs) _ e in
    let (other, h') = or_inv (same w website) (has_field website fs) h in
    rw (sym (some_inj e'), permission_of, same_sym website w, other)
      (permission_of_unlisted website fs rest permission e_rest h')
permission_of_unlisted website (member w null fs) list permission e h = cc
permission_of_unlisted website (member w (string s) fs) list permission e h = cc
permission_of_unlisted website (member w (natural n) fs) list permission e h = cc
permission_of_unlisted website (member w (negative n) fs) list permission e h = cc
permission_of_unlisted website (member w (array xs) fs) list permission e h = cc
permission_of_unlisted website (member w (object gs) fs) list permission e h = cc

boolean_inj : (a b : Bool) → boolean a ≡ boolean b → a ≡ b
boolean_inj a b e = cc

-- The loop finds the member.
permission_of-at_field :
    (website : Str) (fs : Fields) (list : List (Str × Bool)) (permission allow : Bool)
    → HasDistinctKeys fs
    → permission_items fs ≡ some list
    → at_field website fs ≡ boolean allow
    → permission_of website list permission ≡ allow
unfolding permission_items
permission_of-at_field website done list permission allow distinct e h = cc
permission_of-at_field website (member w (boolean b) fs) list permission allow (new, distinct) e h =
    let (rest, e_rest, e') = bind-eq-some (permission_items fs) _ e in
    elim (Bool-cases (same w website)) [
      | inl y ↦
          rw (sym (some_inj e'), permission_of, same_sym website w, y)
            (permission_of_unlisted website fs rest b e_rest (rw (same→eq w website y) at new)
              ∙ boolean_inj b allow (rw y at h))
      | inr n ↦
          rw (sym (some_inj e'), permission_of, same_sym website w, n)
            (permission_of-at_field website fs rest permission allow distinct e_rest (rw n at h))
    ]
permission_of-at_field website (member w null fs) list permission allow distinct e h = cc
permission_of-at_field website (member w (string s) fs) list permission allow distinct e h = cc
permission_of-at_field website (member w (natural n) fs) list permission allow distinct e h = cc
permission_of-at_field website (member w (negative n) fs) list permission allow distinct e h = cc
permission_of-at_field website (member w (array xs) fs) list permission allow distinct e h = cc
permission_of-at_field website (member w (object gs) fs) list permission allow distinct e h = cc

at_field-assign_field :
    (key : Str) (x : Value) (fs : Fields) → at_field key (assign_field key x fs) ≡ x
at_field-assign_field key x done = rw (same_refl key) refl
at_field-assign_field key x (member k v fs) = elim (Bool-cases (same k key)) [
  | inl y ↦ rw (y, y) refl
  | inr n ↦ rw (n, n) (at_field-assign_field key x fs)
]

-- An assignment makes an object that has the member.
pub assign-object :
    (key : Str) (x v u : Value)
    → assign key x v ≡ some u
    → (fs : Fields) × (u ≡ object fs) × (at_field key fs ≡ x)
assign-object key x (object fs) u e =
    (assign_field key x fs, sym (some_inj e), at_field-assign_field key x fs)
assign-object key x null u e = (member key x done, sym (some_inj e), rw (same_refl key) refl)
assign-object key x (string s) u e = cc
assign-object key x (natural n) u e = cc
assign-object key x (negative n) u e = cc
assign-object key x (boolean b) u e = cc
assign-object key x (array xs) u e = cc

-- What is read of a printed object that has the member.
pub stored_permissions-dump :
    (node : Node)
    → NodeLaws node
    → (website dumped : Str) (allow : Bool) (fs : Fields) (stored : Value)
      (list : List (Str × Bool))
    → at_field website fs ≡ boolean allow
    → node.dump (object fs) ≡ some dumped
    → node.parse dumped ≡ some stored
    → stored_permissions stored ≡ some list
    → permission_of website list false ≡ allow
unfolding stored_permissions
stored_permissions-dump node laws website dumped allow fs stored list h e_dump e_parse e_list =
    let (gs, parsed, distinct, members) = laws.parse-dump fs dumped e_dump in
    let same_json : stored ≡ object gs = some_inj (sym e_parse ∙ parsed) in
    permission_of-at_field website gs list false allow distinct (rw same_json at e_list)
      (members website ∙ h)
