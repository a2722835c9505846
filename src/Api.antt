-- ===== src/Api.antt =====
-- network/API.cpp: requests and their texts, the two hosts, and the calls of the node, which is a
-- parameter.
pub mod Removals
pub mod Cleaning
use avme_wallet.Base.{
  ◌==◌, if◌then◌else◌, ◌>>=◌, length, Str, codes, ℕ, zero, suc, Bool, true, false, ◌&&◌, Option,
  none, some, List, [], ◌∷◌, ◌++◌, map,
}
use avme_wallet.Utils.Json.Tree.{
  Value, null, string, natural, array, object, done, member, items, as_string, index,
}

-- The struct Request.
pub record Request : Type 0 where
  pub id : ℕ
  pub jsonrpc : Str
  pub method : Str
  pub params : Value

pub record Node : Type 0 where
  pub dump : Value → Option Str
  pub parse : Str → Option Value
  -- httpGetRequest; the empty text is a failure
  pub http : Str → Str

unfoldable pub request_json : Request → Value
request_json req = object (
    member (codes "id") (natural req.id) (
      member (codes "jsonrpc") (string req.jsonrpc)
        (member (codes "method") (string req.method) (member (codes "params") req.params done))))

-- reqStr.erase(reqStr.find("\\"), 1), if there is one.
unfoldable pub erase_backslash : Str → Option Str
erase_backslash [] = none
erase_backslash (c ∷ s) = elim (c == b'\\') [
  | true ↦ some s
  | false ↦ do rest ← erase_backslash s; some (c ∷ rest)
]

-- A quote before an opening brace.
unfoldable pub erase_quote_before : Str → Option Str
erase_quote_before [] = none
erase_quote_before (c ∷ []) = none
erase_quote_before (c ∷ d ∷ s) = elim (c == b'"' && d == b'{') [
  | true ↦ some (d ∷ s)
  | false ↦ do rest ← erase_quote_before (d ∷ s); some (c ∷ rest)
]

-- A quote behind a closing brace.
unfoldable pub erase_quote_behind : Str → Option Str
erase_quote_behind [] = none
erase_quote_behind (c ∷ []) = none
erase_quote_behind (c ∷ d ∷ s) = elim (c == b'}' && d == b'"') [
  | true ↦ some (c ∷ s)
  | false ↦ do rest ← erase_quote_behind (d ∷ s); some (c ∷ rest)
]

-- while ((pos = reqStr.find(…)) != npos) { reqStr.erase(…); }, on fuel.
unfoldable pub erase_all : (Str → Option Str) → ℕ → Str → Str
erase_all erase zero s = s
erase_all erase (suc fuel) s = elim (erase s) [ none ↦ s | some t ↦ erase_all erase fuel t ]

-- The three loops; each round takes a byte away.
unfoldable pub clean : Str → Str
clean s =
    let no_backslash = erase_all erase_backslash (length s) s in
    let no_before = erase_all erase_quote_before (length s) no_backslash in
    erase_all erase_quote_behind (length s) no_before

unfoldable pub build_request : Node → Request → Option Str
build_request node req = do req_str ← node.dump (request_json req); some (clean req_str)

-- An array that no request was pushed to stays null.
unfoldable pub request_array : List Request → Value
request_array [] = null
request_array (r ∷ reqs) = array (items (map request_json (r ∷ reqs)))

unfoldable pub build_multi_request : Node → List Request → Option Str
build_multi_request node reqs = node.dump (request_array reqs)

-- The request of a method with its parameters.
abbrev pub call : Str → List Value → Request
call method params = record {
  id = 1;
  jsonrpc = codes "2.0";
  method = method;
  params = array (items params);
}

unfoldable pub broadcast_tx : Node → Str → Option Str
broadcast_tx node txid_hex = do
  query ←
      build_request node
        (call (codes "eth_sendRawTransaction") (string (codes "0x" ++ txid_hex) ∷ []))
  some (node.http query)

-- The text under "result" of what the node answers.
unfoldable pub result_of : Node → Str → Option Str
result_of node resp = do
  resp_json ← node.parse resp
  result ← index (codes "result") resp_json
  as_string result

pub get_nonce : Node → Str → Option Str
get_nonce node account = do
  query ←
      build_request node
        (call (codes "eth_getTransactionCount") (string account ∷ string (codes "latest") ∷ []))
  result_of node (node.http query)

-- The parameters are written `{}`, which is null.
pub get_current_block : Node → Option Str
get_current_block node = do
  query ←
      build_request node
        (record { id = 1; jsonrpc = codes "2.0"; method = codes "eth_blockNumber"; params = null })
  result_of node (node.http query)

pub get_tx_status : Node → Str → Option Str
get_tx_status node txid_hex = do
  query ←
      build_request node
        (call (codes "eth_getTransactionReceipt") (string (codes "0x" ++ txid_hex) ∷ []))
  resp_json ← node.parse (node.http query)
  result ← index (codes "result") resp_json
  node.dump result

pub get_tx_block : Node → Str → Option Str
get_tx_block node txid_hex = do
  query ←
      build_request node
        (call (codes "eth_getTransactionReceipt") (string (codes "0x" ++ txid_hex) ∷ []))
  some (node.http query)

-- The static members that the requests go to.
pub record Host : Type 0 where
  pub host : Str
  pub port : Str
  pub target : Str

pub record Hosts : Type 0 where
  pub api : Host
  pub web_socket : Host

unfoldable pub set_default_api : Str → Str → Str → Hosts → Hosts
set_default_api desired_host desired_port desired_target h = record h {
  api = record { host = desired_host; port = desired_port; target = desired_target };
}

unfoldable pub set_web_socket_api : Str → Str → Str → Hosts → Hosts
set_web_socket_api desired_host desired_port desired_target h = record h {
  web_socket = record { host = desired_host; port = desired_port; target = desired_target };
}

-- httpGetRequest's choice between the two.
pub choose_host : Bool → Hosts → Host
choose_host is_web_socket h = if is_web_socket then h.web_socket else h.api
