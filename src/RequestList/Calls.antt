-- ===== src/RequestList/Calls.antt =====
-- The calls on the list of requests, and what they do to the batches.
use avme_wallet.Base.{
  ◌>>=◌, length, Str, codes, strip_0x, ℕ, suc, Option, none, some, List, [], ◌∷◌, ◌++◌, map,
}
use avme_wallet.Api.{Request, Node, request_array}
use avme_wallet.RequestList.{
  RequestList, call_json, latest_call, build_get_balance_req, build_get_token_balance_req,
  build_get_total_supply_req, build_get_current_block_number_req, build_get_tx_receipt_req,
  build_get_estimate_gas_limit_req, build_get_allowance_req, build_get_pair_req,
  build_get_reserves_req, build_custom_eth_call_req, build_arc20_token_exists_req,
  build_get_arc20_token_data_req, Answer, answered, failed, do_api_requests, clear_api_requests,
}
use avme_wallet.Utils.Json.Tree.{Value, string, array, end, items}
use avme_wallet.Utils.Hex.{address_to_hex}
use avme_wallet.RequestList.Batches.{Batches, view, with_request, without}

-- The calls that the screens make.
pub data Question : Type 0 where
  balance : (address : Str) → Question
  token_balance : (token_contract address : Str) → Question
  supply : (pair_address : Str) → Question
  block_number : Question
  receipt : (txid_hex : Str) → Question
  gas_limit : (json_str : Str) → Question
  allowance : (receiver owner spender : Str) → Question
  pair : (asset_address1 asset_address2 factory_contract : Str) → Question
  reserves : (pair_address : Str) → Question
  custom_call : (contract abi : Str) → Question
  token_exists : (address : Str) → Question
  token_data : (address : Str) → Question

pub data Call : Type 0 where
  ask : Question → (id : Str) → Call
  send : (id : Str) → Call
  clear : (id : Str) → Call

abbrev pub build : Node → Question → Str → RequestList → Option RequestList
build node (balance address) id l = some (build_get_balance_req address id l)
build node (token_balance c address) id l = some (build_get_token_balance_req c address id l)
build node (supply p) id l = some (build_get_total_supply_req p id l)
build node block_number id l = some (build_get_current_block_number_req id l)
build node (receipt txid) id l = some (build_get_tx_receipt_req txid id l)
build node (gas_limit json_str) id l = build_get_estimate_gas_limit_req node json_str id l
build node (allowance r o s) id l = build_get_allowance_req r o s id l
build node (pair a b f) id l = build_get_pair_req a b f id l
build node (reserves p) id l = some (build_get_reserves_req p id l)
build node (custom_call c abi) id l = some (build_custom_eth_call_req c abi id l)
build node (token_exists address) id l = build_arc20_token_exists_req address id l
build node (token_data address) id l = some (build_get_arc20_token_data_req address id l)

-- The state and the answer behind a call.
abbrev pub perform : Node → Call → RequestList → Option (RequestList × List Answer)
perform node (ask q id) l = do l' ← build node q id l; some (l', [])
perform node (send id) l = let (l', answer) = do_api_requests node id l in some (l', answer ∷ [])
perform node (clear id) l = some (clear_api_requests id l, [])

abbrev pub perform_all : Node → List Call → RequestList → Option (RequestList × List Answer)
perform_all node [] l = some (l, [])
perform_all node (c ∷ calls) l = do
  (l', answers) ← perform node c l
  (l'', further) ← perform_all node calls l'
  some (l'', answers ++ further)

-- The specification: the methods and parameters that a question stands for, which all get the number
-- behind the last of the batch; a batch that is sent is gone.
abbrev pub eth_call : Str → Str → Str × Value
eth_call to call_data = (codes "eth_call", latest_call to call_data)

abbrev pub data_call : Str → Str → Str × Value
data_call to function = (codes "eth_call", array (items (call_json to function ∷ [])))

abbrev pub asked : Node → Question → Option (List (Str × Value))
asked node (balance address) =
    some
      ((codes "eth_getBalance", array (items (string address ∷ string (codes "latest") ∷ []))) ∷ [])
asked node (token_balance c address) =
    some (eth_call c (codes "0x70a08231000000000000000000000000" ++ strip_0x address) ∷ [])
asked node (supply p) = some (eth_call p (codes "0x18160ddd") ∷ [])
asked node block_number = some ((codes "eth_blockNumber", array end) ∷ [])
asked node (receipt txid) =
    some
      ((codes "eth_getTransactionReceipt", array (items (string (codes "0x" ++ txid) ∷ []))) ∷ [])
asked node (gas_limit json_str) = do
  v ← node.parse json_str
  some ((codes "eth_estimateGas", array (items (v ∷ []))) ∷ [])
asked node (allowance r o s) = do
  owner ← address_to_hex o
  spender ← address_to_hex s
  some (eth_call r (codes "0xdd62ed3e" ++ owner ++ spender) ∷ [])
asked node (pair a b f) = do
  first ← address_to_hex a
  second ← address_to_hex b
  some (eth_call f (codes "0xe6a43905" ++ first ++ second) ∷ [])
asked node (reserves p) = some (eth_call p (codes "0x0902f1ac") ∷ [])
asked node (custom_call c abi) = some (eth_call c abi ∷ [])
asked node (token_exists address) = do
  _ ← address_to_hex address
  some (eth_call address (codes "0x18160ddd") ∷ eth_call address (codes "0x18160ddd") ∷ [])
asked node (token_data address) = some (
    data_call address (codes "0x06fdde03")
    ∷ data_call address (codes "0x95d89b41")
    ∷ data_call address (codes "0x313ce567")
    ∷ [])

abbrev pub numbered : ℕ → Str × Value → Request
numbered n (method, params) = record {
  id = n;
  jsonrpc = codes "2.0";
  method = method;
  params = params;
}

abbrev pub with_requests : Str → List Request → Batches → Batches
with_requests id [] b = b
with_requests id (req ∷ reqs) b = with_requests id reqs (with_request id req b)

abbrev pub spec : Node → Call → Batches → Option (Batches × List Answer)
spec node (ask q id) b = do
  questions ← asked node q
  some (with_requests id (map (numbered (suc (length (b id)))) questions) b, [])
spec node (send id) b = elim (node.dump (request_array (b id))) [
  | none ↦ some (b, failed ∷ [])
  | some requests ↦ some (without id b, answered (node.http requests) ∷ [])
]
spec node (clear id) b = some (without id b, [])

abbrev pub spec_all : Node → List Call → Batches → Option (Batches × List Answer)
spec_all node [] b = some (b, [])
spec_all node (c ∷ calls) b = do
  (b', answers) ← spec node c b
  (b'', further) ← spec_all node calls b'
  some (b'', answers ++ further)

abbrev pub viewed : Option (RequestList × List Answer) → Option (Batches × List Answer)
viewed none = none
viewed (some (l, answers)) = some (view l, answers)
