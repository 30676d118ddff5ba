-- ===== src/Rpc/Http/Connection.antt =====
-- `HttpServer::handle_connection` of modules/rpc/src/http_server.cpp: the loop over `recv`, then
-- parsing, the handler and the reply.
use chain_forge.Core.Exceptions.{Result, ok, throw}
use chain_forge.Rpc.Types.{HttpRequest, HttpResponse}
use chain_forge.Base.{
  nat_eq, ◌||◌, bytes_eq, ◌&&◌, ◌==◌, length, ℕ, Bool, false, Option, none, some, List, [], ◌∷◌,
  ◌++◌, if◌then◌else◌,
}
use chain_forge.Base.Map.{insert}
use chain_forge.Base.Text.{Text, codes, cut, to_string}
use chain_forge.Rpc.Http.{parse_http_request, format_http_response}

-- What one call of `recv` returns: some bytes, the end of the stream, or a failure or a timeout.
pub data Received : Type 0 where
  bytes : Text → Received
  closed failed : Received

-- `request_data += buffer` reads a C string: it ends at the first zero byte.
unfoldable pub c_string : Text → Text
c_string t = elim (cut 0 t) [ some (before, behind) ↦ before | none ↦ t ]

unfoldable pub has_blank_line : Text → Bool
has_blank_line [] = false
has_blank_line (a ∷ []) = false
has_blank_line (a ∷ b ∷ []) = false
has_blank_line (a ∷ b ∷ c ∷ []) = false
has_blank_line (a ∷ b ∷ c ∷ d ∷ t) =
    (a == b'\r') && (b == b'\n') && (c == b'\r') && (d == b'\n') || has_blank_line (b ∷ c ∷ d ∷ t)

-- The text read; `none` where the connection is given up. A list that ends before the loop does
-- is a connection on which `recv` still waits, and it times out.
unfoldable pub read_request : List Received → Text → Option Text
read_request [] text = none
read_request (failed ∷ more) text = none
read_request (closed ∷ more) text = some text
read_request (bytes t ∷ more) text =
    let all_read = text ++ c_string t in
    let rest = read_request more all_read in if has_blank_line all_read then some all_read else rest

abbrev Handler : Type 0
Handler = HttpRequest → Result HttpResponse

unfoldable pub not_found : Text → HttpResponse
not_found message = record {
  status_code = 404;
  status_message = codes "Not Found";
  body = message;
  headers =
      insert (codes "Content-Length") (to_string (length message))
        (insert (codes "Content-Type") (codes "text/plain") []);
  content_type = codes "text/plain";
}

abbrev respond : Option Handler → HttpRequest → Result HttpResponse
respond none request = ok (not_found (codes "No request handler configured"))
respond (some handler) request = handler request

-- The bytes handed to `send`; `none` where nothing is sent.
unfoldable pub handle_connection : ℕ → Option Handler → List Received → Option Text
handle_connection limit handler received = elim (read_request received []) [
  | none ↦ none
  | some text ↦ elim (respond handler (parse_http_request limit text)) [
    | ok response ↦ some (format_http_response response)
    | throw e ↦ none
  ]
]
