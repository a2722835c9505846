-- ===== src/Tests/Batches.antt =====
-- network/API.cpp and qmlwrap/QmlApi.cpp at concrete inputs.
use avme_wallet.Base.{Str, codes, ◌≡◌, refl, Option, none, some, List, [], ◌∷◌}
use avme_wallet.Api.{Node}
use avme_wallet.RequestList.{
  RequestList, add_request, build_get_balance_req, build_get_current_block_number_req, Answer,
  clear_api_requests,
}
use avme_wallet.RequestList.Batches.{view}
use avme_wallet.RequestList.Calls.{
  balance, block_number, token_data, Call, ask, send, clear, perform_all, spec_all, viewed,
}
use avme_wallet.RequestList.Refinement.{perform_all-refines}
use avme_wallet.RequestList.Numbers.{AllNumbered, perform_all-AllNumbered}

abbrev quoted : Str
quoted = b'"' ∷ b'{' ∷ b'\\' ∷ b'"' ∷ b'a' ∷ b'}' ∷ b'"' ∷ []

-- A node that prints every batch alike and answers with the request.
abbrev echo : Node
echo = record { dump = λ v. some (codes "[]"); parse = λ s. none; http = λ s. s }

abbrev calls : List Call
calls =
    ask (balance (codes "0x01")) (codes "a")
    ∷ ask (token_data (codes "0x02")) (codes "b")
    ∷ ask block_number (codes "a")
    ∷ send (codes "b")
    ∷ []

perform_all-refines_example : viewed (perform_all echo calls []) ≡ spec_all echo calls (view [])
perform_all-refines_example = perform_all-refines echo calls []

abbrev state_of : Option (RequestList × List Answer) → RequestList
state_of none = []
state_of (some (l, answers)) = l

abbrev single_calls : List Call
single_calls =
    ask (balance (codes "0x01")) (codes "a") ∷ ask block_number (codes "a") ∷ clear (codes "b") ∷ []

perform_all-AllNumbered_example : AllNumbered (view (state_of (perform_all echo single_calls [])))
unfolding add_request build_get_balance_req build_get_current_block_number_req clear_api_requests
perform_all-AllNumbered_example =
    perform_all-AllNumbered echo single_calls [] (state_of (perform_all echo single_calls [])) []
      (refl, (refl, (refl, tt))) refl (λ id. tt)

abbrev list_of : Option RequestList → RequestList
list_of none = []
list_of (some l) = l

abbrev token : Str
token = codes "0xb97ef9ef8734c71904d8002f8b6bc66dd9c48a6e"
