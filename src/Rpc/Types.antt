-- ===== src/Rpc/Types.antt =====
-- The structures of modules/rpc/include/chainforge/rpc/rpc_server.hpp, and the JSON library as an
-- interface.
use chain_forge.Base.Map.{Map}
use chain_forge.Base.Text.{Text}
use chain_forge.Base.{ℕ, ℤ, Bool, Option, List}

pub record RpcServerConfig : Type 0 where
  pub host : Text
  pub port : ℕ
  pub max_connections : ℕ
  pub timeout_seconds : ℕ
  pub enable_cors : Bool
  pub allowed_origins : List Text

pub record HttpRequest : Type 0 where
  pub method : Text
  pub path : Text
  pub body : Text
  pub headers : Map Text Text
  pub query_params : Map Text Text

pub record HttpResponse : Type 0 where
  pub status_code : ℕ
  pub status_message : Text
  pub body : Text
  pub headers : Map Text Text
  pub content_type : Text

-- The calls of nlohmann::json: `none` where they throw.
pub record JsonLibrary (Json : Type 0) : Type 0 where
  pub parse : Text → Option Json
  pub has_field : Json → Text → Bool
  pub field : Json → Text → Json
  pub is_string : Json → Bool
  pub is_number : Json → Bool
  pub as_text : Json → Option Text
  pub as_int : Json → Option ℤ
  pub null : Json
  pub text : Text → Json
  pub number : ℤ → Json
  pub object : List (Text × Json) → Json
  pub dump : Json → Text

pub record JsonRpcRequest (Json : Type 0) : Type 0 where
  pub jsonrpc : Text
  pub method : Text
  pub params : Json
  pub id : Option Text

pub record JsonRpcError (Json : Type 0) : Type 0 where
  pub code : ℤ
  pub message : Text
  pub details : Option Json  -- `data`

pub record JsonRpcResponse (Json : Type 0) : Type 0 where
  pub jsonrpc : Text
  pub result : Option Json
  pub error : Option (JsonRpcError Json)
  pub id : Option Text
