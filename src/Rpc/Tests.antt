-- ===== src/Rpc/Tests.antt =====
-- The theorems about the RPC server at concrete data.
use chain_forge.Base.{
  bytes_eq, ◌==◌, true, false, none, some, List, [], ◌∷◌, ◌≡◌, refl, if◌then◌else◌, All, arith,
}
use chain_forge.Mempool.Monad.{done}
use chain_forge.Base.Text.Laws.{is_word}
use chain_forge.Base.Map.{Map}
use chain_forge.Base.Text.{
  getline, cut, word, drop_spaces, is_space, stoul, read_digits, drop_spaces_end, decimal,
  drop_spaces_end, drop_spaces, word, is_space, decimal, Text, codes,
}
use chain_forge.Rpc.Types.{RpcServerConfig, HttpRequest, JsonLibrary, JsonRpcRequest}
use chain_forge.Rpc.Http.{
  read_body, parse_header, pop_cr, query_loop, header_lines, parse_headers, request_target,
  request_line, parse_body, parse_rest, print_headers, trim, parse_http_request,
  format_http_response,
}
use chain_forge.Rpc.Http.RoundTrip.{IsHeader, print_request, parse_http_request-print_request}
use chain_forge.Rpc.Http.Crlf.{AllZero, parse_http_request-body_lost}
use chain_forge.Rpc.Server.{
  from_json, to_json, read_id, read_id, to_json, from_json, RpcServerImpl, RpcMethodHandler,
  returns, process_jsonrpc_request, handle_http_request, failure, method_not_found,
}
use chain_forge.Rpc.Server.Dispatch.{
  Change, registers, unregisters, apply_all, process_jsonrpc_request-last_handler,
}
use chain_forge.Rpc.Server.Replies.{IsFramed, expected_status, handle_http_request-IsFramed}
use chain_forge.Rpc.Responses.{ok_response, add_cors_headers}
use chain_forge.Rpc.Hex.{hex_digits, hex_digits, number_to_hex, hex_to_number, is_valid_hex}
use chain_forge.Rpc.Hex.Laws.{hex_to_number-number_to_hex}
use chain_forge.Rpc.Http.Connection.{
  has_blank_line, c_string, not_found, bytes, closed, handle_connection, read_request,
}

abbrev sent_headers : Map Text Text
sent_headers = (codes "Host", codes "node:8545") ∷ (codes "Content-Length", codes "4") ∷ []

sent_headers-IsHeader : All IsHeader sent_headers
unfolding trim is_space drop_spaces drop_spaces_end
sent_headers-IsHeader = (
  record {
    key_on_line = refl;
    key_ends = refl;
    key_trimmed = refl;
    value_on_line = refl;
    value_trimmed = refl;
  },
  (
    record {
      key_on_line = refl;
      key_ends = refl;
      key_trimmed = refl;
      value_on_line = refl;
      value_trimmed = refl;
    },
    tt,
  ),
)

rpc_word : is_word (codes "/rpc") ≡ true
unfolding is_space
rpc_word = refl

parse_http_request-print_request_example :
    parse_http_request 100 (print_request (codes "/rpc") sent_headers (codes "{\n\n}")) ≡ record {
      method = codes "POST";
      path = codes "/rpc";
      body = codes "{\n\n}";
      headers = sent_headers;
      query_params = [];
    }
unfolding decimal
parse_http_request-print_request_example =
    parse_http_request-print_request 100 (codes "/rpc") sent_headers (codes "{\n\n}") rpc_word
      (λ e. cc) refl sent_headers-IsHeader (refl, (refl, tt)) refl (omega arith) (omega arith)

abbrev crlf_request : Text
crlf_request = codes "POST / HTTP/1.1\r\nContent-Length: 2\r\n\r\n{}"

parse_http_request-body_lost_example : AllZero (parse_http_request 100 crlf_request).body
parse_http_request-body_lost_example = parse_http_request-body_lost 100 crlf_request refl

-- Two bytes were sent, and two zero bytes are read.
crlf_body : (parse_http_request 100 crlf_request).body ≡ 0 ∷ 0 ∷ []
unfolding parse_http_request getline cut parse_rest parse_body request_line request_target word
    drop_spaces is_space parse_headers header_lines pop_cr parse_header trim drop_spaces_end
    read_body stoul read_digits
crlf_body = refl

query_read :
    (parse_http_request 100 (codes "GET /a?x=1&y&z=2 HTTP/1.1\r\n")).query_params
    ≡ (codes "x", codes "1") ∷ (codes "z", codes "2") ∷ []
unfolding parse_http_request getline cut parse_rest parse_body request_line request_target word
    drop_spaces is_space query_loop header_lines parse_headers
query_read = refl

printed :
    format_http_response (ok_response (codes "hi"))
    ≡ codes "HTTP/1.1 200 OK\r\nContent-Type: application/json\r\nContent-Length: 2\r\n\r\nhi"
unfolding format_http_response ok_response decimal print_headers
printed = refl

read_in_parts :
    read_request (bytes (codes "GET / HTTP/1.1\r\n") ∷ bytes (codes "\r\n") ∷ closed ∷ []) []
    ≡ some (codes "GET / HTTP/1.1\r\n\r\n")
unfolding read_request has_blank_line c_string cut
read_in_parts = refl

no_handler :
    handle_connection 100 none (bytes (codes "GET / HTTP/1.1\r\n\r\n") ∷ [])
    ≡ some (
        codes
          "HTTP/1.1 404 Not Found\r\nContent-Type: text/plain\r\nContent-Length: 29\r\n\r\nNo request handler configured")
unfolding parse_http_request getline cut parse_rest parse_body request_line request_target word
    drop_spaces is_space header_lines pop_cr parse_headers has_blank_line c_string read_request
    handle_connection not_found format_http_response print_headers decimal
no_handler = refl

-- A toy library: a value is its text.
abbrev toy : JsonLibrary Text
toy = record {
  parse = some;
  has_field = λ j k. true;
  field = λ j k. if k == codes "jsonrpc" then codes "2.0" else j;
  is_string = λ j. true;
  is_number = λ j. false;
  as_text = some;
  as_int = λ j. none;
  null = [];
  text = λ t. t;
  number = λ n. [];
  object = λ fields. [];
  dump = λ j. j;
}

abbrev local : RpcServerConfig
local = record {
  host = codes "127.0.0.1";
  port = 8545;
  max_connections = 100;
  timeout_seconds = 30;
  enable_cors = true;
  allowed_origins = codes "*" ∷ [];
}

abbrev echo : RpcMethodHandler Text
echo params =
    returns (record { jsonrpc = codes "2.0"; result = some params; error = none; id = none })

abbrev history : List (Change Text)
history =
    registers (codes "echo") echo ∷ registers (codes "stop") echo ∷ unregisters (codes "stop") ∷ []

abbrev call : Text → JsonRpcRequest Text
call method = record { jsonrpc = codes "2.0"; method = method; params = codes "x"; id = none }

process_jsonrpc_request-last_handler_example :
    process_jsonrpc_request
      (apply_all history (record { config = local; methods = [] }))
      (call (codes "stop"))
    ≡ done (failure (method_not_found (codes "Method not found")))
process_jsonrpc_request-last_handler_example =
    process_jsonrpc_request-last_handler local history (call (codes "stop")) refl (λ e. cc)

abbrev post : HttpRequest
post = record {
  method = codes "POST";
  path = codes "/";
  body = codes "echo";
  headers = [];
  query_params = [];
}

abbrev echo_server : RpcServerImpl Text
echo_server = record { config = local; methods = (codes "echo", echo) ∷ [] }

handle_http_request-IsFramed_example :
    ((add_cors_headers local (ok_response [])).status_code ≡ expected_status post)
    × IsFramed (add_cors_headers local (ok_response []))
unfolding handle_http_request process_jsonrpc_request from_json to_json read_id
handle_http_request-IsFramed_example =
    handle_http_request-IsFramed toy echo_server post (add_cors_headers local (ok_response [])) refl

hex_to_number-number_to_hex_example :
    (hex_to_number (number_to_hex 255) ≡ 255) × (is_valid_hex (number_to_hex 255) 0 ≡ true)
hex_to_number-number_to_hex_example = hex_to_number-number_to_hex 255 (omega arith)

hex_printed : number_to_hex 255 ≡ codes "0xff"
unfolding number_to_hex hex_digits
hex_printed = refl
