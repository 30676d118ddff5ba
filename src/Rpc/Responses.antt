-- ===== src/Rpc/Responses.antt =====
-- The replies of modules/rpc/src/rpc_server_impl.cpp: `HttpResponse::ok`, `bad_request`, and the
-- headers that `add_cors_headers` adds.
use chain_forge.Base.{negsuc, not, List, [], ◌∷◌, if◌then◌else◌, length, bytes_eq}
use chain_forge.Base.Map.{insert}
use chain_forge.Base.Text.{Text, codes, to_string}
use chain_forge.Rpc.Types.{HttpResponse, RpcServerConfig, JsonLibrary}

-- `HttpResponse::ok`
unfoldable pub ok_response : Text → HttpResponse
ok_response body = record {
  status_code = 200;
  status_message = codes "OK";
  body = body;
  headers =
      insert (codes "Content-Length") (to_string (length body))
        (insert (codes "Content-Type") (codes "application/json") []);
  content_type = codes "application/json";
}

abbrev first_origin : List Text → Text
first_origin [] = codes "*"
first_origin (origin ∷ origins) = origin

unfoldable pub add_cors_headers : RpcServerConfig → HttpResponse → HttpResponse
add_cors_headers config response = if not config.enable_cors then response else record response {
  headers = insert (codes "Access-Control-Max-Age") (codes "86400") (
      insert (codes "Access-Control-Allow-Headers") (codes "Content-Type") (
        insert (codes "Access-Control-Allow-Methods") (codes "POST, OPTIONS") (
          insert (codes "Access-Control-Allow-Origin") (first_origin config.allowed_origins)
            response.headers)));
}

module _ {Json : Type 0} (json : JsonLibrary Json) where
  -- `HttpResponse::bad_request`
  unfoldable pub bad_request : Text → HttpResponse
  bad_request message =
      let body = json.dump (
        json.object (
          (
            codes "error",
            json.object (
                (codes "code", json.number (negsuc 32599))
                ∷ (codes "message", json.text message)
                ∷ []),
          )
          ∷ [])) in
      record {
        status_code = 400;
        status_message = codes "Bad Request";
        body = body;
        headers =
            insert (codes "Content-Length") (to_string (length body))
              (insert (codes "Content-Type") (codes "application/json") []);
        content_type = codes "application/json";
      }
