-- ===== src/RequestList/Numbers.antt =====
-- The numbers of the requests of a batch.
use avme_wallet.Utils.Hex.{address_to_hex}
use avme_wallet.RequestList.Batches.{Batches, view, with_request, without}
use avme_wallet.RequestList.Calls.{
  Question, balance, token_balance, supply, block_number, receipt, gas_limit, allowance, pair,
  reserves, custom_call, token_exists, token_data, Call, ask, send, clear, perform, perform_all,
  asked, numbered, spec, viewed,
}
use avme_wallet.RequestList.Refinement.{view-push_two, perform-refines}
use avme_wallet.Base.{
  Bool-cases, Option-cases, bind-eq-some, some_inj, length, All, Str, codes, same, same→eq,
  same_refl, ℕ, suc, ◌+◌, ◌≡◌, refl, sym, ap, ◌∙◌, subst, inl, inr, Bool, true, false, Option, none,
  some, List, [], ◌∷◌, ◌++◌, append_assoc, arith,
}
use avme_wallet.Api.{Request, Node, request_array}
use avme_wallet.RequestList.{
  RequestList, requests_of, next_request, latest_call, build_arc20_token_exists_req, Answer,
}
use avme_wallet.Utils.Json.Tree.{Value}

-- The numbers go up by one from `n`.
abbrev pub IsNumbered : ℕ → List Request → Type 0
IsNumbered n [] = Unit
IsNumbered n (r ∷ reqs) = (r.id ≡ n) × IsNumbered (suc n) reqs

abbrev pub AllNumbered : Batches → Type 0
AllNumbered b = (id : Str) → IsNumbered 1 (b id)

-- The questions that stand for one request.
abbrev pub is_single : Question → Bool
is_single (token_exists address) = false
is_single (token_data address) = false
is_single (balance address) = true
is_single (token_balance c address) = true
is_single (supply p) = true
is_single block_number = true
is_single (receipt txid) = true
is_single (gas_limit json_str) = true
is_single (allowance r o s) = true
is_single (pair a b f) = true
is_single (reserves p) = true
is_single (custom_call c abi) = true

abbrev pub is_single_call : Call → Bool
is_single_call (ask q id) = is_single q
is_single_call (send id) = true
is_single_call (clear id) = true

IsNumbered-snoc :
    (n : ℕ) (reqs : List Request) (r : Request)
    → IsNumbered n reqs
    → r.id ≡ n + length reqs
    → IsNumbered n (reqs ++ r ∷ [])
IsNumbered-snoc n [] r h e = (omega (arith, e), tt)
IsNumbered-snoc n (x ∷ reqs) r (e', h) e = (e', IsNumbered-snoc (suc n) reqs r h (omega (arith, e)))

-- A single question asks for one thing.
asked_one :
    (node : Node) (q : Question) (qs : List (Str × Value))
    → is_single q ≡ true
    → asked node q ≡ some qs
    → (p : Str × Value) × (qs ≡ p ∷ [])
asked_one node (balance address) qs h e = (_, sym (some_inj e))
asked_one node (token_balance c address) qs h e = (_, sym (some_inj e))
asked_one node (supply p) qs h e = (_, sym (some_inj e))
asked_one node block_number qs h e = (_, sym (some_inj e))
asked_one node (receipt txid) qs h e = (_, sym (some_inj e))
asked_one node (reserves p) qs h e = (_, sym (some_inj e))
asked_one node (custom_call c abi) qs h e = (_, sym (some_inj e))
asked_one node (gas_limit json_str) qs h e =
    let (v, _, e') = bind-eq-some (node.parse json_str) _ e in (_, sym (some_inj e'))
asked_one node (allowance r o s) qs h e =
    let (owner, _, e') = bind-eq-some (address_to_hex o) _ e in
    let (spender, _, e'') = bind-eq-some (address_to_hex s) _ e' in (_, sym (some_inj e''))
asked_one node (pair a b f) qs h e =
    let (first, _, e') = bind-eq-some (address_to_hex a) _ e in
    let (second, _, e'') = bind-eq-some (address_to_hex b) _ e' in (_, sym (some_inj e''))
asked_one node (token_exists address) qs h e = cc
asked_one node (token_data address) qs h e = cc

with_request-AllNumbered :
    (id : Str) (p : Str × Value) (b : Batches)
    → AllNumbered b
    → AllNumbered (with_request id (numbered (suc (length (b id))) p) b)
with_request-AllNumbered id p b h other = elim (Bool-cases (same id other)) [
  | inl y ↦
      rw (y, same→eq id other y)
        (IsNumbered-snoc 1 (b other) (numbered (suc (length (b other))) p) (h other) (omega arith))
  | inr n ↦ rw n (h other)
]

without-AllNumbered : (id : Str) (b : Batches) → AllNumbered b → AllNumbered (without id b)
without-AllNumbered id b h other = elim (Bool-cases (same id other)) [
  | inl y ↦ rw y tt
  | inr n ↦ rw n (h other)
]

-- What a result must keep.
abbrev Keeps : Option (Batches × List Answer) → Type 0
Keeps none = Unit
Keeps (some (b, answers)) = AllNumbered b

spec-Keeps :
    (node : Node) (c : Call) (b : Batches)
    → is_single_call c ≡ true
    → AllNumbered b
    → Keeps (spec node c b)
spec-Keeps node (ask q id) b one h = elim (Option-cases (asked node q)) [
  | inl e ↦ rw (e, spec) tt
  | inr (qs, e) ↦
      let (p, e') = asked_one node q qs one e in
      rw (e, e', spec) (with_request-AllNumbered id p b h)
]
spec-Keeps node (send id) b one h = elim (Option-cases (node.dump (request_array (b id)))) [
  | inl e ↦ rw (e, spec) h
  | inr (requests, e) ↦ rw (e, spec) (without-AllNumbered id b h)
]
spec-Keeps node (clear id) b one h = without-AllNumbered id b h

perform-AllNumbered :
    (node : Node) (c : Call) (l l' : RequestList) (answers : List Answer)
    → is_single_call c ≡ true
    → perform node c l ≡ some (l', answers)
    → AllNumbered (view l)
    → AllNumbered (view l')
perform-AllNumbered node c l l' answers one e h =
    subst Keeps (sym (perform-refines node c l) ∙ ap viewed e) (spec-Keeps node c (view l) one h)

-- From a list whose batches are numbered, as the empty one is, every sequence of sendings, clearings
-- and questions that stand for one request that does not fail leaves every batch numbered 1, 2, 3
-- and so on in its order.
pub perform_all-AllNumbered :
    (node : Node) (calls : List Call) (l l' : RequestList) (answers : List Answer)
    → All (λ c. is_single_call c ≡ true) calls
    → perform_all node calls l ≡ some (l', answers)
    → AllNumbered (view l)
    → AllNumbered (view l')
perform_all-AllNumbered node [] l l' answers _ e h =
    subst (λ r. AllNumbered (view r)) (ap (λ r. r.0) (some_inj e)) h
perform_all-AllNumbered node (c ∷ calls) l l' answers (one, ones) e h =
    let ((l1, first), e1, e') = bind-eq-some (perform node c l) _ e in
    let ((l2, further), e2, e3) = bind-eq-some (perform_all node calls l1) _ e' in
    subst (λ r. AllNumbered (view r)) (ap (λ r. r.0) (some_inj e3))
      (perform_all-AllNumbered node calls l1 l2 further ones e2
        (perform-AllNumbered node c l l1 first one e1 h))

-- The question whether a token exists, if the address can be padded, puts one request behind its
-- batch twice, number included, and that request asks for the token's supply.
pub build_arc20_token_exists_req_twice :
    (address id : Str) (l l' : RequestList)
    → build_arc20_token_exists_req address id l ≡ some l'
    → (r : Request) × (view l' id ≡ view l id ++ r ∷ r ∷ [])
      × (r.params ≡ latest_call address (codes "0x18160ddd"))
unfolding build_arc20_token_exists_req
build_arc20_token_exists_req_twice address id l l' e =
    let (hex, _, e') = bind-eq-some (address_to_hex address) _ e in
    let r = next_request (codes "eth_call") (latest_call address (codes "0x18160ddd")) id l in
    (
      r,
      ap (λ m. view m id) (sym (some_inj e'))
          ∙ ap (λ b. b id) (view-push_two id r r l)
          ∙ rw (same_refl id) (append_assoc (requests_of id l) (r ∷ []) (r ∷ [])),
      refl,
    )
