-- ===== src/Rpc/Http.antt =====
-- modules/rpc/src/http_server.cpp: reading a request off a connection, parsing it, and printing the
-- reply. The order of a `Map` is the order in which the unordered map is walked.
pub mod Lines
pub mod RoundTrip
pub mod Crlf
pub mod Connection
use mathlib.Core.Option
use chain_forge.Base.{
  nat_eq, ℕ, zero, suc, ◌-◌, Bool, true, false, Option, none, some, List, [], ◌∷◌, ◌++◌,
  if◌then◌else◌, leb, length, take, replicate, ◌==◌, bytes_eq,
}
use chain_forge.Base.Map.{Map, lookup, insert, contains}
use chain_forge.Base.Text.{
  Text, codes, cut, drop_spaces, drop_spaces_end, word, Stream, getline, to_string, stoul,
}
use chain_forge.Rpc.Types.{HttpRequest, HttpResponse}

-- `while (std::getline(stream, pair, '&'))` on the rest of the query
unfoldable pub query_loop : ℕ → Stream → Map Text Text → Map Text Text
query_loop zero s params = params
query_loop (suc fuel) s params = elim (getline b'&' s) [
  | none ↦ params
  | some (pair, s') ↦
      query_loop fuel s'
        (elim (cut b'=' pair) [ some (key, value) ↦ insert key value params | none ↦ params ])
]

-- Every call of `getline` takes a character, or leaves a stream that is not good.
abbrev pub parse_query_string : Text → Map Text Text → Map Text Text
parse_query_string query = query_loop (suc (length query)) (record { good = true; rest = query })

unfoldable pub trim : Text → Text
trim t = drop_spaces_end (drop_spaces t)

unfoldable pub parse_header : Text → Map Text Text → Map Text Text
parse_header line headers = elim (cut b':' line) [
  | some (key, value) ↦ insert (trim key) (trim value) headers
  | none ↦ headers
]

unfoldable pub parse_headers : List Text → Map Text Text → Map Text Text
parse_headers [] headers = headers
parse_headers (line ∷ lines) headers = parse_headers lines (parse_header line headers)

-- `line.pop_back()` where the line ends in `\r`
unfoldable pub pop_cr : Text → Text
pop_cr [] = []
pop_cr (c ∷ []) = if c == b'\r' then [] else c ∷ []
pop_cr (c ∷ d ∷ cs) = c ∷ pop_cr (d ∷ cs)

-- `if (!line.empty()) header_lines.push_back(line)`
abbrev pub push_line : Text → List Text → List Text
push_line [] lines = lines
push_line (c ∷ cs) lines = (c ∷ cs) ∷ lines

-- `while (std::getline(stream, line) && !line.empty())`: the header lines, and the stream behind.
unfoldable pub header_lines : ℕ → Stream → List Text × Stream
header_lines zero s = ([], s)
header_lines (suc fuel) s = elim (getline b'\n' s) [
  | none ↦ ([], s)
  | some ([], s') ↦ ([], s')
  | some (c ∷ cs, s') ↦
      let more = header_lines fuel s' in (push_line (pop_cr (c ∷ cs)) more.0, more.1)
]

-- The method and the path, off which the query is cut.
unfoldable pub request_target : Text → Text → HttpRequest
request_target method target = elim (cut b'?' target) [
  | some (path, query) ↦ record {
    method = method;
    path = path;
    body = [];
    headers = [];
    query_params = parse_query_string query [];
  }
  | none ↦ record { method = method; path = target; body = []; headers = []; query_params = [] }
]

-- `line_stream >> request.method >> request.path`
unfoldable pub request_line : Text → HttpRequest
request_line line =
    let first = word (drop_spaces line) in
    let second = word (drop_spaces first.1) in request_target first.0 second.0

-- What `read` finds: nothing once the stream is not good.
abbrev pub unread : Stream → Text
unread s = if s.good then s.rest else []

-- `request.body.resize(n); stream.read(&request.body[0], n)`
abbrev pub read_into : ℕ → Text → Text
read_into n rest = take n rest ++ replicate (n - length rest) 0

-- `limit` is the longest string that `resize` can provide; a longer one makes it throw.
unfoldable pub read_body : ℕ → Option Text → Text → Text
read_body limit none rest = []
read_body limit (some []) rest = []
read_body limit (some (c ∷ cs)) rest = elim (stoul (c ∷ cs)) [
  | none ↦ []
  | some n ↦ if leb n limit then read_into n rest else []
]

-- `request.headers["Content-Length"]` adds the key where it is missing.
unfoldable pub parse_body : ℕ → HttpRequest → Text → HttpRequest
parse_body limit r rest =
    if r.method == codes "POST"
    then elim (lookup (codes "Content-Length") r.headers) [
      | some value ↦ record r { body = read_body limit (some value) rest }
      | none ↦ record r { headers = insert (codes "Content-Length") [] r.headers }
    ]
    else r

-- Everything behind the request line.
unfoldable pub parse_rest : ℕ → HttpRequest → Stream → HttpRequest
parse_rest limit r s =
    let (lines, behind) = header_lines (suc (length s.rest)) s in
    parse_body limit (record r { headers = parse_headers lines r.headers }) (unread behind)

unfoldable pub parse_http_request : ℕ → Text → HttpRequest
parse_http_request limit text =
    let s : Stream = record { good = true; rest = text } in
    elim (getline b'\n' s) [
      | some (line, s') ↦ parse_rest limit (request_line line) s'
      | none ↦
          parse_rest limit
            (record { method = []; path = []; body = []; headers = []; query_params = [] }) s
    ]

-- `stream << key << ": " << value << "\r\n"`
abbrev pub print_header : Text → Text → Text
print_header key value = key ++ (codes ": " ++ (value ++ codes "\r\n"))

unfoldable pub print_headers : Map Text Text → Text
print_headers [] = []
print_headers ((key, value) ∷ headers) = print_header key value ++ print_headers headers

abbrev pub print_missing : Text → Text → Map Text Text → Text
print_missing key value headers = if contains key headers then [] else print_header key value

unfoldable pub format_http_response : HttpResponse → Text
format_http_response r =
    codes "HTTP/1.1 "
    ++ to_string r.status_code
    ++ codes " "
    ++ r.status_message
    ++ codes "\r\n"
    ++ print_headers r.headers
    ++ print_missing (codes "Content-Type") r.content_type r.headers
    ++ print_missing (codes "Content-Length") (to_string (length r.body)) r.headers
    ++ codes "\r\n"
    ++ r.body
