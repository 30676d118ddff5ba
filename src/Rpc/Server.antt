-- ===== src/Rpc/Server.antt =====
-- modules/rpc/src/rpc_server_impl.cpp: JSON-RPC requests over HTTP. The JSON library is a parameter.
pub mod Dispatch
pub mod Replies
use mathlib.Core.Option
use chain_forge.Base.{
  ◌||◌, ◌==◌, length, ◌+◌, not, bytes_eq, ℕ, ℤ, pos, negsuc, Bool, true, false, Option, none, some,
  List, [], ◌∷◌, ◌++◌, if◌then◌else◌,
}
use chain_forge.Base.Map.{contains, Map, lookup, insert, erase}
use chain_forge.Base.Text.{Text, codes, to_string}
use chain_forge.Rpc.Types.{
  HttpRequest, HttpResponse, RpcServerConfig, JsonLibrary, JsonRpcRequest, JsonRpcError,
  JsonRpcResponse,
}
use chain_forge.Rpc.Responses.{ok_response, add_cors_headers, bad_request}
use chain_forge.Mempool.Monad.{Outcome, done, self_lock}

-- How a handler ends: it returns, it throws an exception that describes itself, or it calls
-- `register_method`, `unregister_method` or `has_method` of the server that runs it.
pub data Call (Json : Type 0) : Type 0 where
  returns : JsonRpcResponse Json → Call Json
  raises : Text → Call Json
  asks_server : Call Json

abbrev pub RpcMethodHandler : Type 0 → Type 0
RpcMethodHandler Json = Json → Call Json

pub record RpcServerImpl (Json : Type 0) : Type 0 where
  pub config : RpcServerConfig
  pub methods : Map Text (RpcMethodHandler Json)

-- `std::to_string` of an `int`
abbrev to_string_int : ℤ → Text
to_string_int (pos n) = to_string n
to_string_int (negsuc n) = b'-' ∷ to_string (n + 1)

module _ {Json : Type 0} where
  abbrev make_error : ℤ → Text → JsonRpcError Json
  make_error code message = record { code = code; message = message; details = none }

  abbrev pub parse_error : Text → JsonRpcError Json
  parse_error = make_error (negsuc 32699)

  abbrev pub invalid_request : Text → JsonRpcError Json
  invalid_request = make_error (negsuc 32599)

  abbrev pub method_not_found : Text → JsonRpcError Json
  method_not_found = make_error (negsuc 32600)

  abbrev pub internal_error : Text → JsonRpcError Json
  internal_error = make_error (negsuc 32602)

  -- A response that holds the error and nothing else.
  abbrev pub failure : JsonRpcError Json → JsonRpcResponse Json
  failure e = record { jsonrpc = codes "2.0"; result = none; error = some e; id = none }

  unfoldable pub register_method :
      Text → RpcMethodHandler Json → RpcServerImpl Json → RpcServerImpl Json
  register_method name handler s = record s { methods = insert name handler s.methods }

  unfoldable pub unregister_method : Text → RpcServerImpl Json → RpcServerImpl Json
  unregister_method name s = record s { methods = erase name s.methods }

  unfoldable pub has_method : Text → RpcServerImpl Json → Bool
  has_method name s = contains name s.methods

  -- `methods_[request.method](request.params)` under the lock, which the handler cannot take again.
  abbrev pub execute : RpcMethodHandler Json → Json → Outcome (JsonRpcResponse Json)
  execute handler params = elim (handler params) [
    | returns response ↦ done response
    | raises what ↦ done (failure (internal_error what))
    | asks_server ↦ self_lock
  ]

  unfoldable pub process_jsonrpc_request :
      RpcServerImpl Json → JsonRpcRequest Json → Outcome (JsonRpcResponse Json)
  process_jsonrpc_request s request =
      if not (request.jsonrpc == codes "2.0") || (request.method == [])
      then done (failure (invalid_request (codes "Invalid request")))
      else elim (lookup request.method s.methods) [
        | none ↦ done (failure (method_not_found (codes "Method not found")))
        | some handler ↦ execute handler request.params
      ]

infixl 5 ◌>>=◌
abbrev ◌>>=◌ : {A B : Type 0} → Option A → (A → Option B) → Option B
none >>= f = none
some a >>= f = f a

-- What is written with the library.
module _ {Json : Type 0} (json : JsonLibrary Json) where
  -- `json["id"]`: `none` where the conversion throws, and no id where it is neither kind.
  unfoldable pub read_id : Json → Option (Option Text)
  read_id value =
      if json.is_string value
      then Option.map some (json.as_text value)
      else if json.is_number value
      then Option.map (λ n. some (to_string_int n)) (json.as_int value)
      else some none

  abbrev read_fields : Json → Option (JsonRpcRequest Json)
  read_fields value = do
    jsonrpc ← json.as_text (json.field value (codes "jsonrpc"))
    method ← json.as_text (json.field value (codes "method"))
    let params =
        if json.has_field value (codes "params")
        then json.field value (codes "params")
        else json.null
    id ←
        if json.has_field value (codes "id")
        then read_id (json.field value (codes "id"))
        else some none
    some (record { jsonrpc = jsonrpc; method = method; params = params; id = id })

  -- `JsonRpcRequest::from_json`
  unfoldable pub from_json : Text → Option (JsonRpcRequest Json)
  from_json body = do
    value ← json.parse body
    if not (json.has_field value (codes "jsonrpc")) || not (json.has_field value (codes "method"))
        then none
        else read_fields value

  abbrev optional : Text → Option Json → List (Text × Json)
  optional key none = []
  optional key (some value) = (key, value) ∷ []

  unfoldable pub error_to_json : JsonRpcError Json → Json
  error_to_json e = json.object (
      (codes "code", json.number e.code)
      ∷ (codes "message", json.text e.message)
      ∷ optional (codes "data") e.details)

  -- `JsonRpcResponse::to_json`
  unfoldable pub to_json : JsonRpcResponse Json → Json
  to_json r = json.object (
      (codes "jsonrpc", json.text r.jsonrpc)
      ∷ (optional (codes "result") r.result
          ++ (optional (codes "error") (Option.map error_to_json r.error)
              ++ optional (codes "id") (Option.map json.text r.id))))

  -- `if (jsonrpc_request->id.has_value()) response.id = jsonrpc_request->id`
  abbrev pub with_id : Option Text → JsonRpcResponse Json → JsonRpcResponse Json
  with_id none r = r
  with_id (some id) r = record r { id = some id }

  abbrev pub reply : RpcServerConfig → JsonRpcResponse Json → HttpResponse
  reply config response = add_cors_headers config (ok_response (json.dump (to_json response)))

  unfoldable pub handle_http_request : RpcServerImpl Json → HttpRequest → Outcome HttpResponse
  handle_http_request s request =
      if request.method == codes "OPTIONS"
      then done (add_cors_headers s.config (ok_response []))
      else if not (request.method == codes "POST")
      then done (bad_request json (codes "Only POST requests are supported"))
      else elim (from_json request.body) [
        | none ↦
            done (ok_response (json.dump (to_json (failure (parse_error (codes "Parse error"))))))
        | some r ↦ elim (process_jsonrpc_request s r) [
          | self_lock ↦ self_lock
          | done response ↦ done (reply s.config (with_id r.id response))
        ]
      ]
