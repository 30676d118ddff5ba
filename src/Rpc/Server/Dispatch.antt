-- ===== src/Rpc/Server/Dispatch.antt =====
-- The table of methods against its history: who answers a request.
use chain_forge.Base.{
  inr, inl, Option-cases, bytes_beq_iff, arith, if◌then◌else◌, refl, ◌==◌, bytes_eq, ap, ◌∙◌, ◌≢◌,
  ◌≡◌, false, Option, none, some, List, [], ◌∷◌,
}
use chain_forge.Base.Map.{lookup, IsMap}
use chain_forge.Base.Map.Laws.{lookup-insert, lookup-erase, insert-IsMap, erase-IsMap}
use chain_forge.Base.Text.{Text, codes}
use chain_forge.Rpc.Types.{JsonRpcRequest, JsonRpcResponse}
use chain_forge.Rpc.Server.{
  done, Outcome, RpcServerConfig, RpcMethodHandler, RpcServerImpl, register_method,
  unregister_method, execute, failure, method_not_found, process_jsonrpc_request,
}

pub data Change (Json : Type 0) : Type 0 where
  registers : Text → RpcMethodHandler Json → Change Json
  unregisters : Text → Change Json

module _ {Json : Type 0} where
  abbrev pub apply : Change Json → RpcServerImpl Json → RpcServerImpl Json
  apply (registers name handler) s = register_method name handler s
  apply (unregisters name) s = unregister_method name s

  abbrev pub apply_all : List (Change Json) → RpcServerImpl Json → RpcServerImpl Json
  apply_all [] s = s
  apply_all (c ∷ cs) s = apply_all cs (apply c s)

  -- The handler that stands under a name after the changes, without a table.
  abbrev pub last_handler :
      Text → List (Change Json) → Option (RpcMethodHandler Json) → Option (RpcMethodHandler Json)
  last_handler name [] h = h
  last_handler name (registers n handler ∷ cs) h =
      last_handler name cs (if name == n then some handler else h)
  last_handler name (unregisters n ∷ cs) h = last_handler name cs (if name == n then none else h)

  abbrev pub answer : Option (RpcMethodHandler Json) → Json → Outcome (JsonRpcResponse Json)
  answer none params = done (failure (method_not_found (codes "Method not found")))
  answer (some handler) params = execute handler params

  apply-IsMap :
      (c : Change Json) (s : RpcServerImpl Json) → IsMap s.methods → IsMap (apply c s).methods
  unfolding register_method unregister_method
  apply-IsMap (registers name handler) s h = insert-IsMap name handler s.methods h
  apply-IsMap (unregisters name) s h = erase-IsMap name s.methods h

  lookup-apply :
      (name : Text) (c : Change Json) (s : RpcServerImpl Json)
      → IsMap s.methods
      → lookup name (apply c s).methods ≡ last_handler name (c ∷ []) (lookup name s.methods)
  unfolding register_method unregister_method
  lookup-apply name (registers n handler) s h = lookup-insert name n handler s.methods
  lookup-apply name (unregisters n) s h = lookup-erase name n s.methods h

  lookup-apply_all :
      (name : Text) (cs : List (Change Json)) (s : RpcServerImpl Json)
      → IsMap s.methods
      → lookup name (apply_all cs s).methods ≡ last_handler name cs (lookup name s.methods)
  lookup-apply_all name [] s h = refl
  lookup-apply_all name (registers n handler ∷ cs) s h =
      let c : Change Json = registers n handler in
      lookup-apply_all name cs (apply c s) (apply-IsMap c s h)
      ∙ ap (last_handler name cs) (lookup-apply name c s h)
  lookup-apply_all name (unregisters n ∷ cs) s h =
      let c : Change Json = unregisters n in
      lookup-apply_all name cs (apply c s) (apply-IsMap c s h)
      ∙ ap (last_handler name cs) (lookup-apply name c s h)

  -- What `process_jsonrpc_request` does is decided by the handler found.
  process_jsonrpc_request-answer :
      (s : RpcServerImpl Json) (request : JsonRpcRequest Json)
      → request.jsonrpc ≡ codes "2.0"
      → request.method ≢ []
      → process_jsonrpc_request s request ≡ answer (lookup request.method s.methods) request.params
  unfolding process_jsonrpc_request
  process_jsonrpc_request-answer s request v m =
      let named : (request.method == []) ≡ false =
        ground (arith, bytes_beq_iff request.method []) in
      elim (Option-cases (lookup request.method s.methods)) [
        | inl e ↦ ground (arith, bytes_beq_iff request.jsonrpc (codes "2.0"))
        | inr (h, e) ↦ ground (arith, bytes_beq_iff request.jsonrpc (codes "2.0"))
      ]

  -- After any sequence of registrations and removals on a server that had no method, a request of
  -- version 2.0 with a method name is answered by the handler registered last under that name, and
  -- with the error -32601 where there is none or it was removed since.
  pub process_jsonrpc_request-last_handler :
      (config : RpcServerConfig) (cs : List (Change Json)) (request : JsonRpcRequest Json)
      → request.jsonrpc ≡ codes "2.0"
      → request.method ≢ []
      → process_jsonrpc_request (apply_all cs (record { config = config; methods = [] })) request
        ≡ answer (last_handler request.method cs none) request.params
  process_jsonrpc_request-last_handler config cs request v m =
      let s : RpcServerImpl Json = record { config = config; methods = [] } in
      process_jsonrpc_request-answer (apply_all cs s) request v m
      ∙ rw (lookup-apply_all request.method cs s tt) refl
