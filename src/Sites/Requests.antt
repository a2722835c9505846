-- ===== src/Sites/Requests.antt =====
-- qmlwrap/QmlServer.cpp, handleServer: what a web site's request is about, and what is read of it.
use avme_wallet.Base.{
  ◌==◌, if◌then◌else◌, ◌>>=◌, get_elem?, drop, Str, codes, is_empty, Bool, false, ◌||◌, Option,
  none, some, [], ◌∷◌, ◌++◌,
}
use avme_wallet.Utils.Json.Tree.{
  Value, null, string, natural, negative, array, object, end, item, Fields, done, member, at_field,
  as_string, index, index_item, has_field, contains_key, assign_field, is_string,
}
use avme_wallet.Utils.Bytes.{hex_to_string}
use avme_wallet.Api.{Node}

-- What the user does when asked: the answer about the site, and the result of the dialogues with the
-- text that they give.
pub record User : Type 0 where
  pub allows : Bool
  pub transaction : Bool × Str
  pub signing : Bool × Str

-- session_->is_running at the three places that read it.
pub record Running : Type 0 where
  pub before_request : Bool
  pub behind_request : Bool
  pub at_reply : Bool

pub data SignType : Type 0 where
  eth_sign : SignType
  personal_sign : SignType

pub record Transaction : Type 0 where
  pub data_hex : Str
  pub from : Str
  pub gas : Str
  pub to : Str
  pub amount : Str
  pub website : Str

pub record Signing : Type 0 where
  pub address : Str
  pub message : Str
  pub website : Str
  pub sign_type : SignType

-- What the handler shows and sends, in this order.
pub data Event : Type 0 where
  asked_permission : Str → Event
  asked_transaction : Transaction → Event
  asked_sign : Signing → Event
  replied : Str → Event
  closed_session : Event

-- How the handler's thread ends: it returns, an exception leaves it, or it waits for a mutex that
-- nobody unlocks.
pub data Ending : Type 0 where
  returned : Ending
  thrown : Ending
  waiting : Ending

-- What a method is about, behind the first chain of tests.
pub data Demand : Type 0 where
  public_answer : Value → Demand
  account_answer : Value → Demand
  transaction_demand : Demand
  sign_demand : SignType → Demand
  silence : Demand
  failure : Demand

-- The response with its first members, and one more.
abbrev pub response_with : Value → Fields → Value
response_with id rest =
    object (member (codes "jsonrpc") (string (codes "2.0")) (member (codes "id") id rest))

abbrev pub result_fields : Value → Fields
result_fields v = member (codes "result") v done

abbrev pub error_fields : Value → Str → Fields
error_fields error_code message =
    member (codes "error")
      (object (member (codes "code") error_code (member (codes "message") (string message) done)))
      done

-- request[key] makes the member, with null.
abbrev pub touch : Str → Fields → Fields
touch key fs = if has_field key fs then fs else assign_field key null fs

-- Any other method goes to the public node, over the host of the web sockets.
unfoldable pub route : Node → Running → Fields → Demand
route node running request =
    if running.before_request
    then elim (node.dump (object (touch (codes "method") (touch (codes "id") request)))) [
      | none ↦ failure
      | some text_of_request ↦ elim (node.parse (node.http text_of_request)) [
        | none ↦ silence
        | some response ↦ if running.behind_request then public_answer response else silence
      ]
    ]
    else silence

-- `if (request["params"][0]["chainId"] =! "0xa86a")` assigns false, and is never taken.
unfoldable pub add_chain : Value → Fields → Demand
add_chain id request =
    elim (do
      first ← index_item 0 (at_field (codes "params") request)
      index (codes "chainId") first) [
        | none ↦ failure
        | some chain_id ↦ public_answer (response_with id done)
      ]

abbrev pub is_method : Str → Fields → Bool
is_method name request = is_string (at_field (codes "method") request) name

unfoldable pub demand : Node → Running → Str → Fields → Demand
demand node running account request =
    let id = at_field (codes "id") request in
    if is_method (codes "eth_chainId") request
    then public_answer (response_with id (result_fields (string (codes "0xa86a"))))
    else if is_method (codes "net_version") request
    then public_answer (response_with id (result_fields (string (codes "43114"))))
    else if is_method (codes "eth_requestAccounts") request
        || is_method (codes "eth_accounts") request
    then account_answer (response_with id (result_fields (array (item (string account) end))))
    else if is_method (codes "eth_subscribe") request
    then public_answer (response_with id (error_fields (negative 32601) (codes "Method not found")))
    else if is_method (codes "eth_sendTransaction") request
    then transaction_demand
    else if is_method (codes "eth_sign") request
    then sign_demand eth_sign
    else if is_method (codes "personal sign") request || is_method (codes "personal_sign") request
    then sign_demand personal_sign
    else if is_method (codes "wallet_addEthereumChain") request
    then add_chain id request
    else route node running request

-- value = v[key], if it is there, and a default if not.
abbrev pub text_or : Str → Str → Value → Option Str
text_or key default v =
    if contains_key key v then (do x ← index key v; as_string x) else some default

abbrev pub text_at : Str → Value → Option Str
text_at key v = do x ← index key v; as_string x

unfoldable pub transaction_of : Fields → Option Transaction
transaction_of request = do
  first ← index_item 0 (at_field (codes "params") request)
  data_hex ← text_or (codes "data") [] first
  from ← text_at (codes "from") first
  gas ← text_or (codes "gas") (codes "0xc3500") first
  to ← text_at (codes "to") first
  website ← as_string (at_field (codes "__frameOrigin") request)
  amount ← text_or (codes "value") (codes "0x0") first
  some (record {
    data_hex = data_hex;
    from = from;
    gas = gas;
    to = to;
    amount = amount;
    website = website;
  })

abbrev pub starts_with_zero : Str → Bool
starts_with_zero [] = false
starts_with_zero (c ∷ s) = c == b'0'

-- if (data[0] == '0' || data[1] == 'x') data.erase(0, 2); behind the end stands a NUL, and behind
-- that one a read is undefined: `none`.
unfoldable pub erase_0x : Str → Option Str
erase_0x s = if starts_with_zero s then some (drop 2 s) else elim (get_elem? (s ++ 0 ∷ []) 1) [
  | none ↦ none
  | some c ↦ some (if c == b'x' then drop 2 s else s)
]

unfoldable pub signing_of : SignType → Fields → Option Signing
signing_of eth_sign request = do
  address_json ← index_item 0 (at_field (codes "params") request)
  address ← as_string address_json
  data_json ← index_item 1 (at_field (codes "params") request)
  message ← as_string data_json
  website ← as_string (at_field (codes "__frameOrigin") request)
  some (record { address = address; message = message; website = website; sign_type = eth_sign })
signing_of personal_sign request = do
  address_json ← index_item 1 (at_field (codes "params") request)
  address ← as_string address_json
  data_json ← index_item 0 (at_field (codes "params") request)
  data_hex ← as_string data_json
  digits ← erase_0x data_hex
  message ← hex_to_string digits
  website ← as_string (at_field (codes "__frameOrigin") request)
  some (record {
    address = address;
    message = message;
    website = website;
    sign_type = personal_sign;
  })

-- requestedTransactionStatus and requestedSignStatus: the text that the handler reads.
abbrev pub requested_transaction_status : Bool → Str → Str
requested_transaction_status approved txid = if approved then txid else []

abbrev pub requested_sign_status : Bool → Str → Str
requested_sign_status has_signed signature = if has_signed then signature else []

-- An empty text is a refusal.
abbrev pub answer_of : Value → Str → Value
answer_of id s =
    if is_empty s
    then response_with id (error_fields (natural 4001) (codes "The user rejected the request"))
    else response_with id (result_fields (string s))
