-- ===== src/Guard/Run/Named.antt =====
-- What `New` of cosmoguard.go names the metrics of the parts, and that `applyRules` leaves them.
use Prim.Native.String
use cosmoguard.Prelude.{◌≡◌, refl, Bool, List, [], ◌∷◌, String, Option, none, some}
use cosmoguard.Go.{ok}
use cosmoguard.Cache.Options.{apply_options}
use cosmoguard.Rules.{RuleAction}
use cosmoguard.Rules.Http.{HttpRule}
use cosmoguard.Rules.JsonRpc.{JsonRpcRule}
use cosmoguard.HttpProxy
use cosmoguard.HttpProxy.{HttpProxy, Endpoint}
use cosmoguard.JsonRpc.Handler
use cosmoguard.JsonRpc.Handler.{JsonRpcHandler}
use cosmoguard.Ws.Proxy
use cosmoguard.Ws.Proxy.{JsonRpcWebSocketProxy}
use cosmoguard.Config.{Config}
use cosmoguard.Options.{
  with_cache_config, with_metrics_enabled, with_endpoint_handler, with_web_socket_backend,
  with_web_socket_enabled, with_web_socket_connections, with_web_socket_path, with_upstream_manager,
}
use cosmoguard.Guard.{
  CosmoGuard, EndpointHandler, jsonrpc, evm_jsonrpc, evm_jsonrpc_ws, apply_base, apply_evm,
  set_http, set_json_rpc,
}
use cosmoguard.Guard.Parts.{Libraries}
use cosmoguard.Guard.Parts.Laws.{
  timed, WsMade, new_http_proxy-MadeHttp, new_json_rpc_handler-MadeHandler,
}
use cosmoguard.Guard.New.{endpoint}
use cosmoguard.Guard.Shape.{Base, Evm}

-- The endpoint handlers of the proxies for EVM.
abbrev pub on_root : EndpointHandler → String → List (List Endpoint × EndpointHandler)
on_root h method = (endpoint "/" method ∷ [], h) ∷ []

module _ {Glob : Type 0} where
  -- The metrics of a part go by its name.
  pub record NamedHttp (metrics : Bool) (name : String)
      (hs : List (List Endpoint × EndpointHandler)) (p : HttpProxy Glob EndpointHandler)
      : Type 0 where
    pub hist : p.response_time_hist ≡ timed metrics name
    pub handlers : p.endpoint_handlers ≡ hs

  pub record NamedHandler (metrics : Bool) (name : String) (h : JsonRpcHandler Glob) : Type 0 where
    pub hist : h.response_time_hist ≡ timed metrics name
    pub batch_hist : h.batch_res_time_hist ≡ timed metrics (String.◌++◌ name "_batch")
    pub ws : WsMade name metrics h.cache h.ws_proxy

  set_rules-NamedHttp :
      {metrics : Bool} {name : String} {hs : List (List Endpoint × EndpointHandler)}
      {p : HttpProxy Glob EndpointHandler} (rules : List (HttpRule Glob)) (default : RuleAction)
      → NamedHttp metrics name hs p
      → NamedHttp metrics name hs (HttpProxy.set_rules p rules default)
  unfolding HttpProxy.set_rules
  set_rules-NamedHttp rules default n = record { hist = n.hist; handlers = n.handlers }

  set_rules-NamedHandler :
      {metrics : Bool} {name : String} {h : JsonRpcHandler Glob} (rules : List (JsonRpcRule Glob))
      (default : RuleAction)
      → NamedHandler metrics name h
      → NamedHandler metrics name (Handler.set_rules h rules default)
  unfolding Handler.set_rules Proxy.set_rules
  set_rules-NamedHandler {metrics} {name} {h} rules default n = record {
    hist = n.hist;
    batch_hist = n.batch_hist;
    ws = by_ws h.ws_proxy n.ws;
  }
    where
      by_ws :
          (o : Option (JsonRpcWebSocketProxy Glob))
          → WsMade name metrics h.cache o
          → WsMade name metrics h.cache
              (elim o [ none ↦ none | some p ↦ some (Proxy.set_rules p rules default) ])
      by_ws none w = tt
      by_ws (some p) w = w

  pub record NamedBase (c : Config Glob) (g : CosmoGuard Glob) : Type 0 where
    pub lcd : NamedHttp c.metrics.enable "lcd" [] g.lcd_proxy
    pub rpc :
        NamedHttp c.metrics.enable "rpc"
          ((endpoint "/" "POST" ∷ endpoint "/websocket" "GET" ∷ [], jsonrpc) ∷ [])
          g.rpc_proxy
    pub handler : NamedHandler c.metrics.enable "jsonrpc" g.json_rpc_handler

  pub record NamedEvm (c : Config Glob) (g : CosmoGuard Glob) : Type 0 where
    pub handler : JsonRpcHandler Glob
    pub handler_at : g.evm_json_rpc_handler ≡ some handler
    pub handler_named : NamedHandler c.metrics.enable "evm_jsonrpc" handler
    pub rpc : HttpProxy Glob EndpointHandler
    pub rpc_at : g.evm_rpc_proxy ≡ some rpc
    pub rpc_named : NamedHttp c.metrics.enable "evm_rpc" (on_root evm_jsonrpc "POST") rpc
    pub ws_handler : JsonRpcHandler Glob
    pub ws_handler_at : g.evm_json_rpc_ws_handler ≡ some ws_handler
    pub ws_handler_named : NamedHandler c.metrics.enable "evm_jsonrpc_ws" ws_handler
    pub ws : HttpProxy Glob EndpointHandler
    pub ws_at : g.evm_rpc_ws_proxy ≡ some ws
    pub ws_named : NamedHttp c.metrics.enable "evm_rpc_ws" (on_root evm_jsonrpc_ws "GET") ws

  module _ (lib : Libraries) (c : Config Glob) where
    pub Base-NamedBase : (g : CosmoGuard Glob) → Base lib c g → NamedBase c (apply_base c g)
    unfolding apply_options with_cache_config with_metrics_enabled with_endpoint_handler
        with_web_socket_backend with_web_socket_enabled with_web_socket_connections apply_base
    Base-NamedBase g base =
        let lcd = new_http_proxy-MadeHttp lib _ _ _ _ g.lcd_proxy base.lcd in
        let rpc = new_http_proxy-MadeHttp lib _ _ _ _ g.rpc_proxy base.rpc in
        let handler = new_json_rpc_handler-MadeHandler lib _ _ g.json_rpc_handler base.handler in
        record {
          lcd = set_rules-NamedHttp _ _ (record { hist = lcd.hist; handlers = lcd.handlers });
          rpc = set_rules-NamedHttp _ _ (record { hist = rpc.hist; handlers = rpc.handlers });
          handler =
              set_rules-NamedHandler _ _
                (record { hist = handler.hist; batch_hist = handler.batch_hist; ws = handler.ws });
        }

    -- The guard that `applyRules` leaves where EVM is enabled.
    abbrev pub with_evm : (b : CosmoGuard Glob) → Evm lib c b → CosmoGuard Glob
    with_evm b evm = record b {
      evm_rpc_proxy = some (HttpProxy.set_rules evm.rpc c.evm.rpc.http_rules c.evm.rpc.default);
      evm_json_rpc_handler = some (Handler.set_rules evm.handler c.evm.rpc.rules c.evm.rpc.default);
      evm_json_rpc_ws_handler =
          some (Handler.set_rules evm.ws_handler c.evm.ws.rules c.evm.ws.default);
    }

    pub apply_evm-with_evm :
        (b : CosmoGuard Glob) (evm : Evm lib c b) → apply_evm c b ≡ ok (with_evm b evm)
    unfolding apply_evm set_http set_json_rpc
    apply_evm-with_evm b evm =
        rw (evm.rpc_at, evm.handler_at, evm.ws_handler_at, apply_evm, set_http, set_json_rpc) refl

    pub Evm-NamedEvm : (b : CosmoGuard Glob) (evm : Evm lib c b) → NamedEvm c (with_evm b evm)
    unfolding apply_options with_cache_config with_metrics_enabled with_endpoint_handler
        with_web_socket_backend with_web_socket_enabled with_web_socket_connections
        with_web_socket_path with_upstream_manager
    Evm-NamedEvm b evm =
        let handler = new_json_rpc_handler-MadeHandler lib _ _ evm.handler evm.handler_made in
        let rpc = new_http_proxy-MadeHttp lib _ _ _ _ evm.rpc evm.rpc_made in
        let ws_handler =
          new_json_rpc_handler-MadeHandler lib _ _ evm.ws_handler evm.ws_handler_made in
        let ws = new_http_proxy-MadeHttp lib _ _ _ _ evm.ws evm.ws_made in
        record {
          handler = _;
          handler_at = refl;
          handler_named =
              set_rules-NamedHandler c.evm.rpc.rules c.evm.rpc.default
                (record { hist = handler.hist; batch_hist = handler.batch_hist; ws = handler.ws });
          rpc = _;
          rpc_at = refl;
          rpc_named =
              set_rules-NamedHttp c.evm.rpc.http_rules c.evm.rpc.default
                (record { hist = rpc.hist; handlers = rpc.handlers });
          ws_handler = _;
          ws_handler_at = refl;
          ws_handler_named = set_rules-NamedHandler c.evm.ws.rules c.evm.ws.default (record {
            hist = ws_handler.hist;
            batch_hist = ws_handler.batch_hist;
            ws = ws_handler.ws;
          });
          ws = evm.ws;
          ws_at = evm.ws_at;
          ws_named = record { hist = ws.hist; handlers = ws.handlers };
        }
