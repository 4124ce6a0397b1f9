-- ===== src/Guard/New.antt =====
-- `New` of cosmoguard.go: the parts of a guard, as the configuration asks for them.
use Prim.Native.String
use cosmoguard.Prelude.{ℕ, true, false, List, [], ◌∷◌, String, none, some, if◌then◌else◌}
use cosmoguard.Go.{Result, ok, ◌>>=◌, Bytes, itoa}
use cosmoguard.Cache.{Found, found, failed}
use cosmoguard.HttpProxy.{HttpProxy, Endpoint}
use cosmoguard.GrpcProxy.{GrpcProxy}
use cosmoguard.JsonRpc.Handler.{JsonRpcHandler}
use cosmoguard.Config.{Config, ConfigDeps, Read, unread, read, load}
use cosmoguard.Ws.Upstream.{eth}
use cosmoguard.Options.{
  HttpProxyOptions, HasCacheConfig, HasMetrics, http_cache, json_rpc_cache, http_metrics,
  json_rpc_metrics, grpc_metrics, with_cache_config, with_metrics_enabled, with_endpoint_handler,
  with_web_socket_backend, with_web_socket_enabled, with_web_socket_connections,
  with_web_socket_path, with_upstream_manager,
}
use cosmoguard.Guard.{
  CosmoGuard, EndpointHandler, jsonrpc, evm_jsonrpc, evm_jsonrpc_ws, Made, unmade, made,
}
use cosmoguard.Guard.Parts.{Libraries, new_http_proxy, new_grpc_proxy, new_json_rpc_handler}

abbrev pub endpoint : String → String → Endpoint
endpoint path method = record { path = path; method = method }

-- `fmt.Sprintf("%s:%d", host, port)`.
unfoldable pub address : String → ℕ → String
address host port = String.◌++◌ host (String.◌++◌ ":" (itoa port))

abbrev url : String → ℕ → String
url host port = String.◌++◌ "http://" (address host port)

-- `if err != nil { return nil, fmt.Errorf("...: %v", err) }`.
unfoldable pub or_return :
    {Glob A : Type 0} → String → Result (Found A) → (A → Result (Made Glob)) → Result (Made Glob)
or_return what made_part next = do
  part ← made_part
  elim part [
    | failed err ↦ ok (unmade (String.◌++◌ what (String.◌++◌ ": " err)))
    | found a ↦ next a
  ]

module _ {Glob : Type 0} (lib : Libraries) (c : Config Glob) where
  abbrev cached : {T : Type 0} ⦃has : HasCacheConfig T⦄ → T → T
  cached = with_cache_config (some c.cache)

  abbrev metered : {T : Type 0} ⦃has : HasMetrics T⦄ → T → T
  metered = with_metrics_enabled c.metrics.enable

  -- An HTTP proxy of `New`, from a port of the guard to one of the node.
  abbrev pub http_part :
      String
      → ℕ
      → ℕ
      → List (HttpProxyOptions EndpointHandler → HttpProxyOptions EndpointHandler)
      → Found (HttpProxy Glob EndpointHandler)
  http_part name port node_port opts =
      new_http_proxy lib name (address c.host port) (url c.node.host node_port)
        (cached ∷ metered ∷ opts)

  abbrev pub grpc_part : Found (GrpcProxy Glob)
  grpc_part =
      new_grpc_proxy lib "grpc" (address c.host c.grpc_port) (address c.node.host c.node.grpc_port)
        (metered ∷ [])

  abbrev pub rpc_handler : Result (Found (JsonRpcHandler Glob))
  rpc_handler = new_json_rpc_handler lib "jsonrpc" (
      cached
      ∷ with_web_socket_enabled c.rpc.web_socket_enabled
      ∷ with_web_socket_backend (address c.node.host c.node.rpc_port)
      ∷ with_web_socket_connections c.rpc.web_socket_connections
      ∷ metered
      ∷ [])

  abbrev pub evm_handler : Result (Found (JsonRpcHandler Glob))
  evm_handler =
      new_json_rpc_handler lib "evm_jsonrpc" (cached ∷ with_web_socket_enabled false ∷ metered ∷ [])

  abbrev pub evm_ws_handler : Result (Found (JsonRpcHandler Glob))
  evm_ws_handler = new_json_rpc_handler lib "evm_jsonrpc_ws" (
      cached
      ∷ with_web_socket_enabled true
      ∷ with_web_socket_connections c.evm.ws.web_socket_connections
      ∷ with_web_socket_backend (address c.node.host c.node.evm_rpc_ws_port)
      ∷ with_web_socket_path "/"
      ∷ with_upstream_manager eth
      ∷ metered
      ∷ [])

  -- The block under `if cosmoGuard.cfg.EnableEvm`.
  unfoldable pub new_evm : CosmoGuard Glob → Result (Made Glob)
  unfolding or_return
  new_evm g = or_return "error setting up jsonrpc handler for evm-rpc" evm_handler (λ handler.
      or_return "error setting up evm-rpc cosmoguard proxy"
        (ok (
          http_part "evm_rpc" c.evm_rpc_port c.node.evm_rpc_port
            (with_endpoint_handler (endpoint "/" "POST" ∷ []) evm_jsonrpc ∷ [])))
        (λ rpc.
          or_return "error setting up jsonrpc handler for evm-rpc" evm_ws_handler (λ ws_handler.
            or_return "error setting up evm-rpc-ws cosmoguard proxy"
              (ok (
                http_part "evm_rpc_ws" c.evm_rpc_ws_port c.node.evm_rpc_ws_port
                  (with_endpoint_handler (endpoint "/" "GET" ∷ []) evm_jsonrpc_ws ∷ [])))
              (λ ws. ok (
                made (record g {
                  evm_json_rpc_handler = some handler;
                  evm_rpc_proxy = some rpc;
                  evm_json_rpc_ws_handler = some ws_handler;
                  evm_rpc_ws_proxy = some ws;
                }))))))

  -- What follows `loadConfig`.
  unfoldable pub new_parts : Result (Made Glob)
  unfolding or_return new_evm
  new_parts = or_return "error setting up grpc cosmoguard proxy" (ok grpc_part) (λ grpc.
      or_return "error setting up lcd cosmoguard proxy"
        (ok (http_part "lcd" c.lcd_port c.node.lcd_port []))
        (λ lcd. or_return "error setting up jsonrpc handler" rpc_handler (λ handler.
          or_return "error setting up rpc cosmoguard proxy"
            (ok (
              http_part "rpc" c.rpc_port c.node.rpc_port (
                with_endpoint_handler (endpoint "/" "POST" ∷ endpoint "/websocket" "GET" ∷ [])
                  jsonrpc
                ∷ [])))
            (λ rpc.
              let g : CosmoGuard Glob = record {
                cfg = some c;
                lcd_proxy = lcd;
                rpc_proxy = rpc;
                grpc_proxy = grpc;
                json_rpc_handler = handler;
                evm_rpc_proxy = none;
                evm_rpc_ws_proxy = none;
                evm_json_rpc_handler = none;
                evm_json_rpc_ws_handler = none;
              } in
              if c.enable_evm then new_evm g else ok (made g)))))

unfoldable pub after_load : {Glob : Type 0} → Libraries → Read Glob → Result (Made Glob)
unfolding new_parts
after_load lib (unread err) = ok (unmade err)
after_load lib (read cfg (some err)) = ok (unmade err)
after_load lib (read cfg none) = new_parts lib cfg

unfoldable pub new : (d : ConfigDeps) → Libraries → Found Bytes → Result (Made d.globs.Glob)
unfolding after_load
new d lib file = do r ← load d file; after_load lib r
