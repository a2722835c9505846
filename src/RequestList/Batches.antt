-- ===== src/RequestList/Batches.antt =====
-- The list of requests as a function from identifiers to batches.
use avme_wallet.Base.{
  if◌then◌else◌, Bool-cases, Str, same, same→eq, same_sym, ◌≡◌, refl, sym, inl, inr, true, false,
  List, [], ◌∷◌, ◌++◌,
}
use avme_wallet.Api.{Request}
use avme_wallet.RequestList.{RequestList, requests_of, push_back, erase_id}

abbrev pub Batches : Type 0
Batches = Str → List Request

abbrev pub view : RequestList → Batches
view l id = requests_of id l

-- A batch grows by a request, and the others are as before.
abbrev pub with_request : Str → Request → Batches → Batches
with_request id req b other = if same id other then b other ++ req ∷ [] else b other

abbrev pub without : Str → Batches → Batches
without id b other = if same id other then [] else b other

same_trans_false : (a b c : Str) → same a b ≡ true → same a c ≡ false → same b c ≡ false
same_trans_false a b c y n = rw (sym (same→eq a b y)) n

pub view-push_back :
    (id : Str) (req : Request) (l : RequestList) (other : Str)
    → requests_of other (push_back id req l) ≡ with_request id req (view l) other
view-push_back id req [] other = elim (Bool-cases (same id other)) [
  | inl y ↦ rw y refl
  | inr n ↦ rw n refl
]
view-push_back id req ((k, reqs) ∷ l) other = elim (Bool-cases (same k id)) [
  | inl y ↦
      rw (y, same→eq k id y)
        (elim (Bool-cases (same id other)) [ inl z ↦ rw z refl | inr n ↦ rw n refl ])
  | inr n ↦ rw n (elim (Bool-cases (same k other)) [
    | inl z ↦
        let differs : same id other ≡ false = rw (sym (same→eq k other z), same_sym id k) n in
        rw (z, differs) refl
    | inr m ↦ rw m (view-push_back id req l other)
  ])
]

pub view-erase_id :
    (id : Str) (l : RequestList) (other : Str)
    → requests_of other (erase_id id l) ≡ without id (view l) other
view-erase_id id [] other = elim (Bool-cases (same id other)) [
  | inl y ↦ rw y refl
  | inr n ↦ rw n refl
]
view-erase_id id ((k, reqs) ∷ l) other = elim (Bool-cases (same k id)) [
  | inl y ↦
      rw (y, view-erase_id id l other, same→eq k id y)
        (elim (Bool-cases (same id other)) [ inl z ↦ rw z refl | inr n ↦ rw n refl ])
  | inr n ↦ rw n (elim (Bool-cases (same k other)) [
    | inl z ↦
        let differs : same id other ≡ false = rw (sym (same→eq k other z), same_sym id k) n in
        rw (z, differs) refl
    | inr m ↦ rw m (view-erase_id id l other)
  ])
]
