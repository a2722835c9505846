-- ===== src/RequestList.antt =====
-- qmlwrap/QmlApi.cpp: the requests that wait under an identifier until they are sent as one batch.
pub mod Batches
pub mod Calls
pub mod Refinement
pub mod Numbers
use avme_wallet.Base.{
  if◌then◌else◌, ◌>>=◌, length, Str, codes, same, strip_0x, suc, Option, none, some, List, [], ◌∷◌,
  ◌++◌,
}
use avme_wallet.Utils.Hex.{address_to_hex}
use avme_wallet.Utils.Json.Tree.{Value, string, array, object, end, done, member, items}
use avme_wallet.Api.{Request, Node, build_multi_request}

-- requestList, a map from identifiers to requests. Every operation holds requestListLock around its
-- accesses, so the operations follow one another. The empty entry that operator[] leaves when a batch
-- cannot be printed is not told from a missing one.
abbrev pub RequestList : Type 0
RequestList = List (Str × List Request)

-- requestList[id], read; a missing identifier has no requests.
abbrev pub requests_of : Str → RequestList → List Request
requests_of id [] = []
requests_of id ((k, reqs) ∷ l) = if same k id then reqs else requests_of id l

-- requestList[id].push_back(req), with the entry that operator[] makes.
abbrev pub push_back : Str → Request → RequestList → RequestList
push_back id req [] = (id, req ∷ []) ∷ []
push_back id req ((k, reqs) ∷ l) =
    let rest = push_back id req l in
    if same k id then (k, reqs ++ req ∷ []) ∷ l else (k, reqs) ∷ rest

-- requestList[id].clear(); requestList.erase(id);
abbrev pub erase_id : Str → RequestList → RequestList
erase_id id [] = []
erase_id id ((k, reqs) ∷ l) =
    let rest = erase_id id l in if same k id then rest else (k, reqs) ∷ rest

-- The struct literal with `this->requestList[requestID].size() + size_t(1)`.
abbrev pub next_request : Str → Value → Str → RequestList → Request
next_request method params id l = record {
  id = suc (length (requests_of id l));
  jsonrpc = codes "2.0";
  method = method;
  params = params;
}

unfoldable pub add_request : Str → Value → Str → RequestList → RequestList
add_request method params id l = push_back id (next_request method params id l) l

-- { "to": …, "data": … }
abbrev pub call_json : Str → Str → Value
call_json to call_data =
    object (member (codes "to") (string to) (member (codes "data") (string call_data) done))

abbrev pub latest_call : Str → Str → Value
latest_call to call_data = array (items (call_json to call_data ∷ string (codes "latest") ∷ []))

unfoldable pub build_get_balance_req : Str → Str → RequestList → RequestList
build_get_balance_req address =
    add_request (codes "eth_getBalance")
      (array (items (string address ∷ string (codes "latest") ∷ [])))

pub build_get_token_balance_req : Str → Str → Str → RequestList → RequestList
build_get_token_balance_req token_contract address =
    add_request (codes "eth_call")
      (latest_call token_contract (codes "0x70a08231000000000000000000000000" ++ strip_0x address))

-- The identifiers of the functions of a contract, ERC20Funcs, factoryFuncs and pairFuncs.
abbrev pub total_supply : Str
total_supply = codes "0x18160ddd"

pub build_get_total_supply_req : Str → Str → RequestList → RequestList
build_get_total_supply_req pair_address =
    add_request (codes "eth_call") (latest_call pair_address total_supply)

unfoldable pub build_get_current_block_number_req : Str → RequestList → RequestList
build_get_current_block_number_req = add_request (codes "eth_blockNumber") (array end)

pub build_get_tx_receipt_req : Str → Str → RequestList → RequestList
build_get_tx_receipt_req txid_hex =
    add_request (codes "eth_getTransactionReceipt")
      (array (items (string (codes "0x" ++ txid_hex) ∷ [])))

-- `none` is the exception of json::parse.
pub build_get_estimate_gas_limit_req : Node → Str → Str → RequestList → Option RequestList
build_get_estimate_gas_limit_req node json_str id l = do
  input_params ← node.parse json_str
  some (add_request (codes "eth_estimateGas") (array (items (input_params ∷ []))) id l)

-- addressToHex is undefined on a text of more than 64 characters: `none`.
pub build_get_allowance_req : Str → Str → Str → Str → RequestList → Option RequestList
build_get_allowance_req receiver owner spender id l = do
  owner_hex ← address_to_hex owner
  spender_hex ← address_to_hex spender
  some (
      add_request (codes "eth_call")
        (latest_call receiver (codes "0xdd62ed3e" ++ owner_hex ++ spender_hex)) id l)

pub build_get_pair_req : Str → Str → Str → Str → RequestList → Option RequestList
build_get_pair_req asset_address1 asset_address2 factory_contract id l = do
  first_hex ← address_to_hex asset_address1
  second_hex ← address_to_hex asset_address2
  some (
      add_request (codes "eth_call")
        (latest_call factory_contract (codes "0xe6a43905" ++ first_hex ++ second_hex)) id l)

pub build_get_reserves_req : Str → Str → RequestList → RequestList
build_get_reserves_req pair_address =
    add_request (codes "eth_call") (latest_call pair_address (codes "0x0902f1ac"))

pub build_custom_eth_call_req : Str → Str → Str → RequestList → RequestList
build_custom_eth_call_req contract abi = add_request (codes "eth_call") (latest_call contract abi)

-- Both requests are made before one of them is pushed, and both have the JSON of the supply.
unfoldable pub build_arc20_token_exists_req : Str → Str → RequestList → Option RequestList
build_arc20_token_exists_req address id l = do
  address_hex ← address_to_hex address
  let params = latest_call address total_supply
  let supply_req = next_request (codes "eth_call") params id l
  let balance_req = next_request (codes "eth_call") params id l
  some (push_back id balance_req (push_back id supply_req l))

-- The three are made before one of them is pushed, and have no "latest".
unfoldable pub build_get_arc20_token_data_req : Str → Str → RequestList → RequestList
build_get_arc20_token_data_req address id l =
    let data_req : Str → Request = λ function.
      next_request (codes "eth_call") (array (items (call_json address function ∷ []))) id l in
    push_back id (data_req (codes "0x313ce567")) (
      push_back id (data_req (codes "0x95d89b41")) (push_back id (data_req (codes "0x06fdde03")) l))

-- What apiRequestAnswered is emitted with: the node's text, or the text of an exception.
pub data Answer : Type 0 where
  answered : Str → Answer
  failed : Answer

unfoldable pub do_api_requests : Node → Str → RequestList → RequestList × Answer
do_api_requests node id l = elim (build_multi_request node (requests_of id l)) [
  | none ↦ (l, failed)
  | some requests ↦ (erase_id id l, answered (node.http requests))
]

unfoldable pub clear_api_requests : Str → RequestList → RequestList
clear_api_requests id l = erase_id id l
