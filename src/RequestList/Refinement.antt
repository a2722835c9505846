-- ===== src/RequestList/Refinement.antt =====
-- Sequences of calls on the list of requests, and the numbers of the requests.
use avme_wallet.Base.{
  Option-cases, ◌>>=◌, length, Str, suc, ◌≡◌, refl, sym, ap, ◌∙◌, inl, inr, Option, none, some,
  List, [], ◌∷◌, ◌++◌,
}
use avme_wallet.Api.{Request, Node, request_array, build_multi_request}
use avme_wallet.RequestList.{
  RequestList, requests_of, push_back, next_request, add_request, build_get_balance_req,
  build_get_token_balance_req, build_get_total_supply_req, build_get_current_block_number_req,
  build_get_tx_receipt_req, build_get_estimate_gas_limit_req, build_get_allowance_req,
  build_get_pair_req, build_get_reserves_req, build_custom_eth_call_req,
  build_arc20_token_exists_req, build_get_arc20_token_data_req, Answer, answered, do_api_requests,
  clear_api_requests,
}
use avme_wallet.Utils.Json.Tree.{Value}
use std.Path.{fun_ext}
use avme_wallet.Utils.Hex.{address_to_hex}
use avme_wallet.RequestList.Batches.{view, with_request, view-push_back, view-erase_id}
use avme_wallet.RequestList.Calls.{
  Question, balance, token_balance, supply, block_number, receipt, gas_limit, allowance, pair,
  reserves, custom_call, token_exists, token_data, Call, ask, send, clear, perform, perform_all,
  numbered, with_requests, spec, spec_all, viewed,
}

view-push :
    (id : Str) (req : Request) (l : RequestList)
    → view (push_back id req l) ≡ with_request id req (view l)
view-push id req l = fun_ext (view-push_back id req l)

pub view-push_two :
    (id : Str) (first second : Request) (l : RequestList)
    → view (push_back id second (push_back id first l))
      ≡ with_request id second (with_request id first (view l))
view-push_two id first second l =
    view-push id second (push_back id first l) ∙ ap (with_request id second) (view-push id first l)

view-add :
    (method : Str) (params : Value) (id : Str) (l : RequestList)
    → viewed (some (add_request method params id l, []))
      ≡ some (
        with_requests id (numbered (suc (length (view l id))) (method, params) ∷ []) (view l),
        [],
      )
unfolding add_request
view-add method params id l =
    ap (λ b. some (b, [])) (view-push id (next_request method params id l) l)

ask-refines :
    (node : Node) (q : Question) (id : Str) (l : RequestList)
    → viewed (perform node (ask q id) l) ≡ spec node (ask q id) (view l)
unfolding build_get_arc20_token_data_req add_request build_get_balance_req
    build_get_token_balance_req build_get_total_supply_req build_get_current_block_number_req
    build_get_tx_receipt_req build_get_estimate_gas_limit_req build_get_allowance_req
    build_get_pair_req build_get_reserves_req build_custom_eth_call_req build_arc20_token_exists_req
ask-refines node (balance address) id l = view-add _ _ id l
ask-refines node (token_balance c address) id l = view-add _ _ id l
ask-refines node (supply p) id l = view-add _ _ id l
ask-refines node block_number id l = view-add _ _ id l
ask-refines node (receipt txid) id l = view-add _ _ id l
ask-refines node (reserves p) id l = view-add _ _ id l
ask-refines node (custom_call c abi) id l = view-add _ _ id l
ask-refines node (gas_limit json_str) id l = elim (Option-cases (node.parse json_str)) [
  | inl e ↦ rw e refl
  | inr (v, e) ↦ rw e (view-add _ _ id l)
]
ask-refines node (allowance r o s) id l = elim (Option-cases (address_to_hex o)) [
  | inl e ↦ rw e refl
  | inr (owner, e) ↦ elim (Option-cases (address_to_hex s)) [
    | inl e' ↦ rw (e, e') refl
    | inr (spender, e') ↦ rw (e, e') (view-add _ _ id l)
  ]
]
ask-refines node (pair a b f) id l = elim (Option-cases (address_to_hex a)) [
  | inl e ↦ rw e refl
  | inr (first, e) ↦ elim (Option-cases (address_to_hex b)) [
    | inl e' ↦ rw (e, e') refl
    | inr (second, e') ↦ rw (e, e') (view-add _ _ id l)
  ]
]
ask-refines node (token_exists address) id l = elim (Option-cases (address_to_hex address)) [
  | inl e ↦ rw e refl
  | inr (hex, e) ↦ rw e (ap (λ b. some (b, [])) (view-push_two id _ _ l))
]
ask-refines node (token_data address) id l =
    ap (λ b. some (b, []))
      (view-push id _ (push_back id _ (push_back id _ l))
        ∙ ap (with_request id _) (view-push_two id _ _ l))

pub perform-refines :
    (node : Node) (c : Call) (l : RequestList) → viewed (perform node c l) ≡ spec node c (view l)
unfolding do_api_requests build_multi_request clear_api_requests
perform-refines node (ask q id) l = ask-refines node q id l
perform-refines node (send id) l =
    elim (Option-cases (node.dump (request_array (requests_of id l)))) [
      | inl e ↦ rw (e, do_api_requests, spec) refl
      | inr (requests, e) ↦
          rw (e, do_api_requests, spec)
            (ap (λ b. some (b, answered (node.http requests) ∷ [])) (fun_ext (view-erase_id id l)))
    ]
perform-refines node (clear id) l = ap (λ b. some (b, [])) (fun_ext (view-erase_id id l))

abbrev prepend {ℓ} :
    {A : Type ℓ} → List Answer → Option (A × List Answer) → Option (A × List Answer)
prepend answers m = do (a, further) ← m; some (a, answers ++ further)

viewed-prepend :
    (answers : List Answer) (m : Option (RequestList × List Answer))
    → viewed (prepend answers m) ≡ prepend answers (viewed m)
viewed-prepend answers none = refl
viewed-prepend answers (some (l, further)) = refl

-- Whatever sequence of questions, sendings and clearings is made, the list of requests is the
-- specification's function from identifiers to batches, and the same answers are emitted: a question
-- appends its requests to the batch of its identifier only, a batch is sent whole and is then gone, it
-- is kept if it cannot be printed, and a call fails exactly if the specification's does.
pub perform_all-refines :
    (node : Node) (calls : List Call) (l : RequestList)
    → viewed (perform_all node calls l) ≡ spec_all node calls (view l)
perform_all-refines node [] l = refl
perform_all-refines node (c ∷ calls) l = elim (Option-cases (perform node c l)) [
  | inl e ↦ let e' = rw e at (perform-refines node c l) in rw (e, sym e') refl
  | inr ((l', answers), e) ↦
      let e' = rw e at (perform-refines node c l) in
      rw (e, sym e')
        (viewed-prepend answers (perform_all node calls l')
          ∙ ap (prepend answers) (perform_all-refines node calls l'))
]
