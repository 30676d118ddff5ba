-- ===== src/Rpc/Http/RoundTrip.antt =====
-- A request whose header block ends in a bare newline is read back as it was printed.
use chain_forge.Base.Map.Laws.{lookup_before, insert_absent}
use chain_forge.Base.Map.{lookup, insert, IsMap}
use mathlib.Core.List.{append-nil, append_assoc}
use chain_forge.Base.{
  length-append, ◌^◌, ◌≢◌, take, ◌-◌, take-append, leb, bytes_eq, map, sym, ℕ, zero, suc, ◌≤◌, ◌<◌,
  ◌≡◌, refl, ap, ◌∙◌, true, false, none, some, [], ◌∷◌, ◌++◌, length, arith, All,
}
use chain_forge.Base.Text.{to_string, word, stoul, is_space, drop_spaces, Text, cut, codes}
use chain_forge.Base.Text.Laws.{
  stoul-to_string, cut-none, word-append, is_word, cut-append, lacks, getline-append,
}
use chain_forge.Rpc.Http.{
  parse_body, HttpRequest, parse_rest, parse_http_request, request_target, read_into, read_body,
  request_line, Map, print_header, parse_header, trim, parse_headers, print_headers, header_lines,
  pop_cr,
}

pop_cr-append : (t : Text) → pop_cr (t ++ b'\r' ∷ []) ≡ t
unfolding pop_cr
pop_cr-append [] = refl
pop_cr-append (c ∷ []) = refl
pop_cr-append (c ∷ d ∷ cs) = ap (◌∷◌ c) (pop_cr-append (d ∷ cs))

lacks-append : (d : ℕ) (a b : Text) → lacks d a ≡ true → lacks d b ≡ true → lacks d (a ++ b) ≡ true
lacks-append d [] b h k = k
lacks-append d (c ∷ cs) b h k = ground (arith, lacks-append d cs b)

-- A line that ends in `\r\n` and is not empty without it is one header line.
header_lines-append :
    (f c : ℕ) (cs rest : Text)
    → lacks b'\n' (c ∷ cs) ≡ true
    → header_lines (suc f) (record { good = true; rest = (c ∷ cs) ++ (codes "\r\n" ++ rest) }) ≡ (
      (c ∷ cs) ∷ (header_lines f (record { good = true; rest = rest })).0,
      (header_lines f (record { good = true; rest = rest })).1,
    )
unfolding header_lines
header_lines-append f c cs rest h =
    let line : Text = c ∷ (cs ++ b'\r' ∷ []) in
    let split : line ++ b'\n' ∷ rest ≡ (c ∷ cs) ++ (codes "\r\n" ++ rest) =
      append_assoc (c ∷ cs) (b'\r' ∷ []) (b'\n' ∷ rest) in
    let read = getline-append b'\n' line rest (lacks-append b'\n' (c ∷ cs) (b'\r' ∷ []) h refl) in
    let keep : pop_cr line ≡ c ∷ cs = pop_cr-append (c ∷ cs) in
    rw (sym split) (rw (read, header_lines) (rw keep refl))

abbrev pub header_line : Text × Text → Text
header_line (key, value) = key ++ (codes ": " ++ value)

-- A header that a line carries: white space at its ends would be trimmed.
pub record IsHeader (h : Text × Text) : Type 0 where
  pub key_on_line : lacks b'\n' h.0 ≡ true
  pub key_ends : lacks b':' h.0 ≡ true
  pub key_trimmed : trim h.0 ≡ h.0
  pub value_on_line : lacks b'\n' h.1 ≡ true
  pub value_trimmed : trim h.1 ≡ h.1

print_header-line :
    (key value rest : Text)
    → print_header key value ++ rest ≡ header_line (key, value) ++ (codes "\r\n" ++ rest)
print_header-line key value rest = simp append_assoc

header_lines-header :
    (f : ℕ) (h : Text × Text) (rest : Text)
    → IsHeader h
    → header_lines (suc f) (record { good = true; rest = header_line h ++ (codes "\r\n" ++ rest) })
      ≡ (
        header_line h ∷ (header_lines f (record { good = true; rest = rest })).0,
        (header_lines f (record { good = true; rest = rest })).1,
      )
header_lines-header f ([], v) rest i =
    header_lines-append f b':' (b' ' ∷ v) rest (rw i.value_on_line refl)
header_lines-header f (c ∷ cs, v) rest i =
    header_lines-append f c (cs ++ (codes ": " ++ v)) rest
      (lacks-append b'\n' (c ∷ cs) (codes ": " ++ v) i.key_on_line (rw i.value_on_line refl))

header_lines-print :
    (f : ℕ) (hs : Map Text Text) (body : Text)
    → length hs < f
    → All IsHeader hs
    → header_lines f (record { good = true; rest = print_headers hs ++ b'\n' ∷ body })
      ≡ (map header_line hs, record { good = true; rest = body })
unfolding print_headers header_lines
header_lines-print zero hs body h a = absurd (omega arith)
header_lines-print (suc f) [] body h a = rw (getline-append b'\n' [] body refl, header_lines) refl
header_lines-print (suc f) ((k, v) ∷ hs) body h (i, a) =
    let rest : Text = print_headers hs ++ b'\n' ∷ body in
    let split : print_headers ((k, v) ∷ hs) ++ b'\n' ∷ body
        ≡ header_line (k, v) ++ (codes "\r\n" ++ rest) =
      simp append_assoc in
    rw split
      (header_lines-header f (k, v) rest i ∙ rw (header_lines-print f hs body (omega arith) a) refl)

trim_blank : (t : Text) → trim (b' ' ∷ t) ≡ trim t
unfolding trim drop_spaces is_space
trim_blank t = refl

parse_header-line :
    (h : Text × Text) (m : Map Text Text)
    → IsHeader h
    → parse_header (header_line h) m ≡ insert h.0 h.1 m
unfolding parse_header trim drop_spaces is_space
parse_header-line (k, v) m i =
    rw (cut-append b':' k (b' ' ∷ v) i.key_ends, parse_header)
      (rw (i.key_trimmed, trim_blank v, i.value_trimmed) refl)

parse_headers-lines :
    (hs m : Map Text Text)
    → All IsHeader hs
    → IsMap (m ++ hs)
    → parse_headers (map header_line hs) m ≡ m ++ hs
unfolding parse_headers
parse_headers-lines [] m a d = sym (append-nil m)
parse_headers-lines ((k, v) ∷ hs) m (i, a) d =
    let step = insert_absent k v m (lookup_before k v m hs d) in
    let join : (m ++ (k, v) ∷ []) ++ hs ≡ m ++ (k, v) ∷ hs = append_assoc m ((k, v) ∷ []) hs in
    let d' : IsMap ((m ++ (k, v) ∷ []) ++ hs) = rw join d in
    rw (parse_headers, parse_header-line (k, v) m i, step)
      (parse_headers-lines hs (m ++ (k, v) ∷ []) a d' ∙ join)

-- `POST path HTTP/1.1` and a newline, the headers with `\r\n`, a bare newline and the body
abbrev pub print_request : Text → Map Text Text → Text → Text
print_request path headers body =
    codes "POST " ++ (path ++ codes " HTTP/1.1") ++ b'\n' ∷ (print_headers headers ++ b'\n' ∷ body)

drop_spaces-word : (c : ℕ) (cs : Text) → is_word (c ∷ cs) ≡ true → drop_spaces (c ∷ cs) ≡ c ∷ cs
unfolding drop_spaces
drop_spaces-word c cs h = ground arith

request_target-plain :
    (method path : Text)
    → cut b'?' path ≡ none
    → request_target method path
      ≡ record { method = method; path = path; body = []; headers = []; query_params = [] }
unfolding request_target
request_target-plain method path e = rw (request_target, e) refl

request_line-words :
    (line method behind path version : Text)
    → word (drop_spaces line) ≡ (method, behind)
    → word (drop_spaces behind) ≡ (path, version)
    → cut b'?' path ≡ none
    → request_line line
      ≡ record { method = method; path = path; body = []; headers = []; query_params = [] }
unfolding request_line
request_line-words line method behind path version first second query =
    rw (request_line, first, second) (request_target-plain method path query)

drop_spaces-letter : (c : ℕ) (cs : Text) → is_space c ≡ false → drop_spaces (c ∷ cs) ≡ c ∷ cs
unfolding drop_spaces
drop_spaces-letter c cs h = rw h refl

drop_spaces-blank : (t : Text) → drop_spaces (b' ' ∷ t) ≡ drop_spaces t
unfolding drop_spaces is_space
drop_spaces-blank t = refl

post_letters : (is_word (codes "POST") ≡ true) × (is_space b'P' ≡ false) × (is_space b' ' ≡ true)
unfolding is_space
post_letters = (refl, refl, refl)

request_line-post :
    (c : ℕ) (cs : Text)
    → is_word (c ∷ cs) ≡ true
    → lacks b'?' (c ∷ cs) ≡ true
    → request_line (codes "POST " ++ ((c ∷ cs) ++ codes " HTTP/1.1"))
      ≡ record { method = codes "POST"; path = c ∷ cs; body = []; headers = []; query_params = [] }
request_line-post c cs w q =
    let (post, letter, blank) = post_letters in
    let behind : Text = codes "HTTP/1.1" in
    let target : Text = (c ∷ cs) ++ b' ' ∷ behind in
    let start : is_space c ≡ false = ground (arith) in
    request_line-words (codes "POST " ++ target) (codes "POST") (b' ' ∷ target) (c ∷ cs)
      (b' ' ∷ behind)
      (rw (drop_spaces-letter b'P' (codes "OST " ++ target) letter)
        (word-append (codes "POST") target b' ' post blank))
      (rw (drop_spaces-blank target, drop_spaces-letter c (cs ++ b' ' ∷ behind) start)
        (word-append (c ∷ cs) behind b' ' w blank))
      (cut-none b'?' (c ∷ cs) q)

read_into-exact : (body : Text) → read_into (length body) body ≡ body
read_into-exact body =
    let whole : take (length body) (body ++ []) ≡ body = take-append (length body) body [] refl in
    let take_whole : take (length body) body ≡ body = rw append-nil at whole in
    let none_left : length body - length body ≡ 0 = omega arith in
    rw none_left (append-nil (take (length body) body) ∙ take_whole)

stoul_empty : stoul [] ≡ none
unfolding stoul drop_spaces
stoul_empty = refl

read_body-exact :
    (limit : ℕ) (t body : Text)
    → stoul t ≡ some (length body)
    → length body ≤ limit
    → read_body limit (some t) body ≡ body
unfolding read_body
read_body-exact limit [] body e l = cc (e, stoul_empty)
read_body-exact limit (c ∷ cs) body e l =
    let fits : leb (length body) limit ≡ true = ground arith in
    rw (e, read_body, fits) (read_into-exact body)

length-print_headers : (hs : Map Text Text) (t : Text) → length hs ≤ length (print_headers hs ++ t)
unfolding print_headers
length-print_headers [] t = omega arith
length-print_headers ((k, v) ∷ hs) t = omega (
  arith,
  length-append (print_header k v) (print_headers hs),
  length-append (print_header k v ++ print_headers hs) t,
  length-append k (codes ": " ++ (v ++ codes "\r\n")),
  length-append (print_headers hs) t,
  length-print_headers hs t,
)

parse_rest-print :
    (limit : ℕ) (r : HttpRequest) (hs : Map Text Text) (body : Text)
    → r.headers ≡ []
    → All IsHeader hs
    → IsMap hs
    → parse_rest limit r (record { good = true; rest = print_headers hs ++ b'\n' ∷ body })
      ≡ parse_body limit (record r { headers = hs }) body
unfolding parse_rest
parse_rest-print limit r hs body e a d =
    let text : Text = print_headers hs ++ b'\n' ∷ body in
    let lines =
      header_lines-print (suc (length text)) hs body
        (omega (arith, length-print_headers hs (b'\n' ∷ body))) a in
    let read : parse_headers (map header_line hs) r.headers ≡ hs =
      rw e (parse_headers-lines hs [] a d) in
    rw (lines, read) refl

parse_body-post :
    (limit : ℕ) (path : Text) (headers : Map Text Text) (body : Text)
    → lookup (codes "Content-Length") headers ≡ some (to_string (length body))
    → length body ≤ limit
    → length body < 2 ^ 64
    → parse_body limit
        (record {
          method = codes "POST";
          path = path;
          body = [];
          headers = headers;
          query_params = [];
        })
        body
      ≡ record {
        method = codes "POST";
        path = path;
        body = body;
        headers = headers;
        query_params = [];
      }
unfolding parse_body
parse_body-post limit path headers body e l b =
    let exact =
      read_body-exact limit (to_string (length body)) body (stoul-to_string (length body) b) l in
    rw (e, exact) refl

is_word-lacks : (t : Text) → is_word t ≡ true → lacks b'\n' t ≡ true
unfolding is_space
is_word-lacks [] w = refl
is_word-lacks (c ∷ cs) w = ground (arith, is_word-lacks cs)

-- A request is read back as it was printed, where the path is a word without a question mark, the
-- headers are distinct, fit on a line and hold the length of the body as `Content-Length`, and the
-- body fits into memory.
pub parse_http_request-print_request :
    (limit : ℕ) (path : Text) (headers : Map Text Text) (body : Text)
    → is_word path ≡ true
    → path ≢ []
    → lacks b'?' path ≡ true
    → All IsHeader headers
    → IsMap headers
    → lookup (codes "Content-Length") headers ≡ some (to_string (length body))
    → length body ≤ limit
    → length body < 2 ^ 64
    → parse_http_request limit (print_request path headers body) ≡ record {
      method = codes "POST";
      path = path;
      body = body;
      headers = headers;
      query_params = [];
    }
unfolding parse_http_request
parse_http_request-print_request limit [] headers body w ne q a d e l b = absurd (ne refl)
parse_http_request-print_request limit (c ∷ cs) headers body w ne q a d e l b =
    let line : Text = codes "POST " ++ ((c ∷ cs) ++ codes " HTTP/1.1") in
    let rest : Text = print_headers headers ++ b'\n' ∷ body in
    let on_line : lacks b'\n' line ≡ true =
      lacks-append b'\n' (c ∷ cs) (codes " HTTP/1.1") (is_word-lacks (c ∷ cs) w) refl in
    let read = getline-append b'\n' line rest on_line in
    rw (parse_http_request, read)
      (rw (request_line-post c cs w q) (
        parse_rest-print limit _ headers body refl a d
        ∙ parse_body-post limit (c ∷ cs) headers body e l b))
