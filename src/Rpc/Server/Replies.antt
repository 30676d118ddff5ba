-- ===== src/Rpc/Server/Replies.antt =====
-- What every reply of the server has in common.
use chain_forge.Base.{
  Option-cases, inr, ◌∙◌, inl, ◌||◌, if◌then◌else◌, ◌==◌, arith, Bool-cases, refl, bytes_eq, length,
  ◌≡◌, ℕ, false, Option, some, [],
}
use chain_forge.Base.Map.{lookup, insert, IsMap}
use chain_forge.Base.Map.Laws.{lookup-insert, insert-IsMap}
use chain_forge.Base.Text.{to_string, Text, codes}
use chain_forge.Rpc.Types.{JsonRpcResponse, HttpRequest, HttpResponse, JsonLibrary}
use chain_forge.Rpc.Server.{
  with_id, reply, Outcome, done, RpcServerConfig, RpcServerImpl, handle_http_request,
  process_jsonrpc_request, from_json,
}
use chain_forge.Mempool.Monad.{Outcome, done, self_lock}
use chain_forge.Rpc.Responses.{ok_response, add_cors_headers, bad_request}

-- The reply declares the length of its body, once, and its type.
pub record IsFramed (r : HttpResponse) : Type 0 where
  pub framed_length : lookup (codes "Content-Length") r.headers ≡ some (to_string (length r.body))
  pub framed_type : lookup (codes "Content-Type") r.headers ≡ some (codes "application/json")
  pub framed_keys : IsMap r.headers

ok_response-IsFramed : (body : Text) → IsFramed (ok_response body)
unfolding ok_response
ok_response-IsFramed body = record {
  framed_length = refl;
  framed_type = refl;
  framed_keys = (refl, (refl, tt));
}

insert-IsFramed :
    (key value : Text) (r : HttpResponse)
    → (codes "Content-Length" == key) ≡ false
    → (codes "Content-Type" == key) ≡ false
    → IsFramed r
    → IsFramed (record r { headers = insert key value r.headers })
insert-IsFramed key value r l t f = record {
  framed_length = lookup-insert (codes "Content-Length") key value r.headers ∙ rw l f.framed_length;
  framed_type = lookup-insert (codes "Content-Type") key value r.headers ∙ rw t f.framed_type;
  framed_keys = insert-IsMap key value r.headers f.framed_keys;
}

add_cors_headers-IsFramed :
    (config : RpcServerConfig) (r : HttpResponse)
    → IsFramed r
    → IsFramed (add_cors_headers config r)
unfolding add_cors_headers
add_cors_headers-IsFramed config r f = elim (Bool-cases config.enable_cors) [
  | inl e ↦ simp e (
      insert-IsFramed (codes "Access-Control-Max-Age") _ _ refl refl (
        insert-IsFramed (codes "Access-Control-Allow-Headers") _ _ refl refl (
          insert-IsFramed (codes "Access-Control-Allow-Methods") _ _ refl refl
            (insert-IsFramed (codes "Access-Control-Allow-Origin") _ r refl refl f))))
  | inr e ↦ simp e f
]

add_cors_headers-status :
    (config : RpcServerConfig) (r : HttpResponse)
    → (add_cors_headers config r).status_code ≡ r.status_code
unfolding add_cors_headers
add_cors_headers-status config r = ground arith

-- `400` for a method that is neither `OPTIONS` nor `POST`, and `200` otherwise.
abbrev pub expected_status : HttpRequest → ℕ
expected_status request =
    if (request.method == codes "OPTIONS") || (request.method == codes "POST") then 200 else 400

-- Where there is a reply, it has this status and is framed.
abbrev Replies : ℕ → Outcome HttpResponse → Type 0
Replies n (done r) = (r.status_code ≡ n) × IsFramed r
Replies n self_lock = Unit {0}

framed_reply :
    (config : RpcServerConfig) (body : Text)
    → Replies 200 (done (add_cors_headers config (ok_response body)))
unfolding ok_response
framed_reply config body = (
  add_cors_headers-status config (ok_response body),
  add_cors_headers-IsFramed config (ok_response body) (ok_response-IsFramed body),
)

module _ {Json : Type 0} (json : JsonLibrary Json) where
  bad_request-IsFramed : (message : Text) → IsFramed (bad_request json message)
  unfolding bad_request
  bad_request-IsFramed message = record {
    framed_length = refl;
    framed_type = refl;
    framed_keys = (refl, (refl, tt));
  }

  finish-Replies :
      (config : RpcServerConfig) (id : Option Text) (o : Outcome (JsonRpcResponse Json))
      → Replies 200 (elim o [
        | self_lock ↦ self_lock
        | done response ↦ done (reply json config (with_id json id response))
      ])
  finish-Replies config id self_lock = tt
  finish-Replies config id (done response) = framed_reply config _

  handle-Replies :
      (s : RpcServerImpl Json) (request : HttpRequest)
      → Replies (expected_status request) (handle_http_request json s request)
  unfolding handle_http_request ok_response bad_request
  handle-Replies s request = elim (Bool-cases (request.method == codes "OPTIONS")) [
    | inl o ↦ simp o (framed_reply s.config [])
    | inr o ↦ elim (Bool-cases (request.method == codes "POST")) [
      | inr p ↦ simp (o, p) (refl, bad_request-IsFramed _)
      | inl p ↦ elim (Option-cases (from_json json request.body)) [
        | inl e ↦ simp (o, p, e) (refl, ok_response-IsFramed _)
        | inr (r, e) ↦ simp (o, p, e) (finish-Replies s.config r.id (process_jsonrpc_request s r))
      ]
    ]
  ]

  -- Whatever the request and the handlers, a reply has the status 400 where the method is neither
  -- `OPTIONS` nor `POST` and 200 otherwise, errors of JSON-RPC included, and its headers declare
  -- the length and the type of its body under distinct keys.
  pub handle_http_request-IsFramed :
      (s : RpcServerImpl Json) (request : HttpRequest) (response : HttpResponse)
      → handle_http_request json s request ≡ done response
      → (response.status_code ≡ expected_status request) × IsFramed response
  unfolding handle_http_request ok_response bad_request
  handle_http_request-IsFramed s request response h = rw h at (handle-Replies s request)
