-- ===== src/Rpc/Http/Crlf.antt =====
-- The blank line `\r\n` of HTTP does not end the loop over the header lines: the line that
-- `getline` returns still holds its `\r`, and is empty only after the test.
use chain_forge.Base.{
  bytes_eq, ◌-◌, leb, replicate, nat_eq, ◌&&◌, ◌==◌, inr, not, ◌≢◌, inl, ℕ, zero, suc, ◌<◌, ◌≡◌,
  refl, Bool, true, Option, none, some, [], ◌∷◌, length, arith, Bool-cases, Option-cases, All,
}
use chain_forge.Base.Text.{stoul, Text, cut, Stream, getline, codes}
use chain_forge.Rpc.Http.{
  request_target, lookup, read_into, HttpRequest, parse_body, parse_http_request, read_body,
  parse_rest, request_line, unread, header_lines,
}
use chain_forge.Rpc.Http.Lines.{getline_shorter}

-- No two newlines stand next to each other: no line but the first is empty.
abbrev pub lacks_empty_line : Text → Bool
lacks_empty_line [] = true
lacks_empty_line (c ∷ []) = true
lacks_empty_line (c ∷ d ∷ cs) = not ((c == b'\n') && (d == b'\n')) && lacks_empty_line (d ∷ cs)

lacks_empty_line-cut :
    (t a b : Text)
    → cut b'\n' t ≡ some (a, b)
    → lacks_empty_line t ≡ true
    → lacks_empty_line (b'\n' ∷ b) ≡ true
unfolding cut
lacks_empty_line-cut [] a b h n = cc
lacks_empty_line-cut (c ∷ []) a b h n = ground arith
lacks_empty_line-cut (c ∷ d ∷ cs) a b h n = elim (Option-cases (cut b'\n' (d ∷ cs))) [
  | inl e ↦ ground arith
  | inr (r, e) ↦ ground (arith, lacks_empty_line-cut (d ∷ cs) r.0 r.1 e)
]

cut_first : (t b : Text) → cut b'\n' t ≡ some ([], b) → t ≡ b'\n' ∷ b
unfolding cut
cut_first [] b h = cc
cut_first (c ∷ cs) b h = elim (Option-cases (cut b'\n' cs)) [
  | inl e ↦ ground arith
  | inr (r, e) ↦ ground arith
]

tail_free : (t : Text) → lacks_empty_line (b'\n' ∷ t) ≡ true → lacks_empty_line t ≡ true
tail_free [] n = refl
tail_free (c ∷ cs) n = ground arith

first_line : (t b : Text) → lacks_empty_line (b'\n' ∷ t) ≡ true → cut b'\n' t ≢ some ([], b)
first_line [] b n e = ground (arith, cut_first [] b e)
first_line (c ∷ cs) b n e = ground (arith, cut_first (c ∷ cs) b e)

-- `getline` fails only on a stream that is not good, or at its end.
getline_end : (s : Stream) → getline b'\n' s ≡ none → unread s ≡ []
unfolding getline
getline_end s h = elim (Option-cases (cut b'\n' s.rest)) [
  | inl e ↦ ground arith
  | inr (r, e) ↦ ground arith
]

getline_rest :
    (s s' : Stream) (line : Text)
    → getline b'\n' s ≡ some (line, s')
    → lacks_empty_line s.rest ≡ true
    → lacks_empty_line (b'\n' ∷ s'.rest) ≡ true
unfolding getline
getline_rest s s' line h n = elim (Option-cases (cut b'\n' s.rest)) [
  | inl e ↦ ground arith
  | inr ((a, b), e) ↦ ground (arith, lacks_empty_line-cut s.rest a b e n)
]

-- What `getline` leaves is again free of empty lines, and the line is not empty.
getline-lacks_empty_line :
    (s s' : Stream) (line : Text)
    → getline b'\n' s ≡ some (line, s')
    → lacks_empty_line (b'\n' ∷ s.rest) ≡ true
    → (lacks_empty_line (b'\n' ∷ s'.rest) ≡ true) × (line ≢ [])
unfolding getline
getline-lacks_empty_line s s' line h n = elim (Option-cases (cut b'\n' s.rest)) [
  | inl e ↦ ground (arith, tail_free s.rest n)
  | inr ((a, b), e) ↦
      ground (arith, lacks_empty_line-cut s.rest a b e (tail_free s.rest n), first_line s.rest b n)
]

-- The loop reads to the end of the stream.
header_lines_end :
    (f : ℕ) (s : Stream)
    → length s.rest < f
    → lacks_empty_line (b'\n' ∷ s.rest) ≡ true
    → unread (header_lines f s).1 ≡ []
unfolding header_lines
header_lines_end zero s hf n = absurd (omega arith)
header_lines_end (suc f) s hf n = elim (Option-cases (getline b'\n' s)) [
  | inl e ↦ rw (e, header_lines) (getline_end s e)
  | inr (([], s'), e) ↦ absurd ((getline-lacks_empty_line s s' [] e n).1 refl)
  | inr ((c ∷ cs, s'), e) ↦
      let shorter = getline_shorter b'\n' s s' (c ∷ cs) e in
      let end =
        header_lines_end f s' (omega (arith, shorter))
          (getline-lacks_empty_line s s' (c ∷ cs) e n).0 in
      rw (e, header_lines) end
]

request_target-body : (method target : Text) → (request_target method target).body ≡ []
unfolding request_target
request_target-body method target = elim (Option-cases (cut b'?' target)) [
  | inl e ↦ rw (e, request_target) refl
  | inr (r, e) ↦ rw (e, request_target) refl
]

request_line-body : (line : Text) → (request_line line).body ≡ []
unfolding request_line
request_line-body line = request_target-body _ _

-- Every byte is zero.
abbrev pub AllZero : Text → Type 0
AllZero = All {A = ℕ} (λ b. b ≡ 0)

replicate_zero : (n : ℕ) → AllZero (replicate n 0)
replicate_zero zero = tt
replicate_zero (suc n) = (refl, replicate_zero n)

read_into-nil : (n : ℕ) → AllZero (read_into n [])
read_into-nil zero = tt
read_into-nil (suc n) = replicate_zero (suc n - 0)

read_body-nil : (limit : ℕ) (value : Option Text) → AllZero (read_body limit value [])
unfolding read_body
read_body-nil limit none = tt
read_body-nil limit (some []) = tt
read_body-nil limit (some (c ∷ cs)) = elim (Option-cases (stoul (c ∷ cs))) [
  | inl e ↦ rw (e, read_body) tt
  | inr (n, e) ↦ elim (Bool-cases (leb n limit)) [
    | inl l ↦ rw (e, read_body, l) (read_into-nil n)
    | inr l ↦ rw (e, read_body, l) tt
  ]
]

parse_body-nil : (limit : ℕ) (r : HttpRequest) → r.body ≡ [] → AllZero (parse_body limit r []).body
unfolding parse_body
parse_body-nil limit r h =
    let before : AllZero r.body = rw h tt in
    elim (Bool-cases (r.method == codes "POST")) [
      | inl post ↦ elim (Option-cases (lookup (codes "Content-Length") r.headers)) [
        | inl e ↦ ground (arith, before)
        | inr (value, e) ↦ ground (arith, read_body-nil limit (some value))
      ]
      | inr other ↦ ground (arith, before)
    ]

parse_rest-nil :
    (limit : ℕ) (r : HttpRequest) (s : Stream)
    → r.body ≡ []
    → lacks_empty_line (b'\n' ∷ s.rest) ≡ true
    → AllZero (parse_rest limit r s).body
unfolding parse_rest
parse_rest-nil limit r s h n =
    rw (header_lines_end (suc (length s.rest)) s (omega arith) n) (parse_body-nil limit _ h)

-- Where no line behind the request line is empty, which a request with CRLF lines and a body
-- without blank lines satisfies, the body of the parsed request holds nothing of the text: it is
-- empty or all zero bytes.
pub parse_http_request-body_lost :
    (limit : ℕ) (text : Text)
    → lacks_empty_line text ≡ true
    → AllZero (parse_http_request limit text).body
unfolding parse_http_request
parse_http_request-body_lost limit text h =
    let s : Stream = record { good = true; rest = text } in
    elim (Option-cases (getline b'\n' s)) [
      | inl e ↦
          rw (e, parse_http_request)
            (parse_rest-nil limit
              (record { method = []; path = []; body = []; headers = []; query_params = [] }) s refl
              (rw (getline_end s e) refl))
      | inr ((line, s'), e) ↦
          rw (e, parse_http_request)
            (parse_rest-nil limit (request_line line) s' (request_line-body line)
              (getline_rest s s' line e h))
    ]
