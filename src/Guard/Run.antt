-- ===== src/Guard/Run.antt =====
-- What a guard starts: `Run` of cosmoguard.go, http_proxy.go, grpc_proxy.go and ws_proxy.go, and `Start`
-- of jsonrpc_handler.go, ws_broker.go and ws_upstream_pool.go. A goroutine is the list of what it does,
-- up to the first call that waits; the servers take their addresses without an error.
pub mod Names
pub mod Named
pub mod Laws
pub mod Distinct
use Prim.Native.String
use cosmoguard.Prelude.{
  ℕ, Bool, true, false, List, [], ◌∷◌, ◌++◌, map, String, Option, none, some, if◌then◌else◌,
}
use cosmoguard.Go.{Result, ok, panic, ◌>>=◌, nil_dereference}
use cosmoguard.HttpProxy.{HttpProxy, Endpoint}
use cosmoguard.GrpcProxy.{GrpcProxy}
use cosmoguard.JsonRpc.Handler.{JsonRpcHandler}
use cosmoguard.Ws.Broker.{Broker}
use cosmoguard.Ws.Pool.{UpstreamPool}
use cosmoguard.Ws.Proxy.{JsonRpcWebSocketProxy}
use cosmoguard.Ws.Upstream.{Unconnected}
use cosmoguard.Config.{Config}
use cosmoguard.Guard.{
  CosmoGuard, EndpointHandler, jsonrpc, evm_jsonrpc, evm_jsonrpc_ws, apply_rules,
}
use cosmoguard.Guard.New.{address}

-- A histogram is registered with prometheus, a server listens, and the loop of a connection starts.
pub data Effect : Type 0 where
  register : (namespace : String) → Effect
  listen : (addr : String) → Effect
  connect : (upstream : Unconnected) → Effect

-- `if hist != nil { prometheus.MustRegister(hist) }`.
abbrev pub must_register : Option String → List Effect
must_register none = []
must_register (some namespace) = register namespace ∷ []

unfoldable pub start_pool : UpstreamPool Unconnected → List Effect
start_pool p = map connect p.conn

unfoldable pub start_broker : Broker Unconnected → List Effect
unfolding start_pool
start_broker b = start_pool b.pool

module _ {Glob : Type 0} where
  unfoldable pub run_ws : JsonRpcWebSocketProxy Glob → List Effect
  unfolding start_broker
  run_ws p = must_register p.response_time_hist ++ start_broker p.broker

  abbrev pub run_optional : Option (JsonRpcWebSocketProxy Glob) → List Effect
  run_optional none = []
  run_optional (some p) = run_ws p

  -- `Start` of a handler.
  unfoldable pub start_handler : JsonRpcHandler Glob → List Effect
  start_handler h =
      must_register h.response_time_hist
      ++ (must_register h.batch_res_time_hist ++ run_optional h.ws_proxy)

  -- `Start` through a pointer that may be nil.
  abbrev pub start_optional : Option (JsonRpcHandler Glob) → Result (List Effect)
  start_optional none = panic nil_dereference
  start_optional (some h) = ok (start_handler h)

  unfoldable pub start_named : CosmoGuard Glob → EndpointHandler → Result (List Effect)
  unfolding start_handler
  start_named g jsonrpc = ok (start_handler g.json_rpc_handler)
  start_named g evm_jsonrpc = start_optional g.evm_json_rpc_handler
  start_named g evm_jsonrpc_ws = start_optional g.evm_json_rpc_ws_handler

  -- `for _, eh := range p.endpointHandlers { eh.Handler.Start(p.log) }`.
  unfoldable pub start_all :
      CosmoGuard Glob → List (List Endpoint × EndpointHandler) → Result (List Effect)
  unfolding start_named
  start_all g [] = ok []
  start_all g ((endpoints, h) ∷ hs) = do
    first ← start_named g h
    rest ← start_all g hs
    ok (first ++ rest)

  unfoldable pub run_http : CosmoGuard Glob → HttpProxy Glob EndpointHandler → Result (List Effect)
  unfolding start_all
  run_http g p = do
    started ← start_all g p.endpoint_handlers
    ok (must_register p.response_time_hist ++ (started ++ listen p.addr ∷ []))

  -- `Run` through a pointer that may be nil.
  unfoldable pub run_optional_http :
      CosmoGuard Glob → Option (HttpProxy Glob EndpointHandler) → Result (List Effect)
  unfolding run_http
  run_optional_http g none = panic nil_dereference
  run_optional_http g (some p) = run_http g p

  unfoldable pub run_grpc : GrpcProxy Glob → List Effect
  run_grpc p = listen p.listener ∷ []

  -- The goroutines of `Run` for a configuration, each with what it does.
  unfoldable pub run_parts : Config Glob → CosmoGuard Glob → Result (List (List Effect))
  unfolding run_optional_http run_grpc
  run_parts c g = do
    rpc ← run_http g g.rpc_proxy
    lcd ← run_http g g.lcd_proxy
    let metrics : List (List Effect) =
        if c.metrics.enable then (listen (address c.host c.metrics.port) ∷ []) ∷ [] else []
    let base = metrics ++ (rpc ∷ run_grpc g.grpc_proxy ∷ lcd ∷ [])
    if c.enable_evm
        then (do
          evm ← run_optional_http g g.evm_rpc_proxy
          ws ← run_optional_http g g.evm_rpc_ws_proxy
          ok (base ++ (evm ∷ ws ∷ [])))
        else ok base

  -- `Run`, up to `WatchConfigFile`.
  unfoldable pub run : CosmoGuard Glob → Result (CosmoGuard Glob × List (List Effect))
  unfolding run_parts
  run g = do
    g' ← apply_rules g
    elim g'.cfg [
      | none ↦ panic nil_dereference
      | some c ↦ (do started ← run_parts c g'; ok (g', started))
    ]
