-- ===== src/Guard/Parts/Laws.antt =====
-- What the constructors of the parts return, by their options.
use Prim.Native.String
use cosmoguard.Prelude.{
  ℕ, ◌≡◌, refl, Bool, List, String, Option, none, some, ◌⊎◌, inl, inr, Option-cases, Bool-cases,
  subst, if◌then◌else◌,
}
use cosmoguard.Go.{ok, >>=-eq-ok, ok-injective}
use cosmoguard.Cache.{Error, Found, found, failed}
use cosmoguard.Cache.Options.{Backing, apply_options}
use cosmoguard.HttpProxy.{HttpProxy}
use cosmoguard.JsonRpc.Handler.{JsonRpcHandler}
use cosmoguard.Ws.Broker.{new_broker}
use cosmoguard.Ws.Upstream.{UpstreamKind, Unconnected}
use cosmoguard.Ws.Proxy.{JsonRpcWebSocketProxy}
use cosmoguard.Options.{
  HttpProxyOptions, default_http_proxy_options, JsonRpcHandlerOptions,
  default_json_rpc_handler_options,
}
use cosmoguard.Guard.Parts.{
  Libraries, set_up_cache, new_http_proxy, new_json_rpc_web_socket_proxy, ws_proxy_of,
  new_json_rpc_handler,
}

pub found-injective : {A : Type 0} {a b : A} → ◌≡◌ {A = Found A} (found a) (found b) → a ≡ b
found-injective e = cc

pub Found-cases :
    {A : Type 0} (r : Found A) → ((err : Error) × (r ≡ failed err)) ⊎ ((a : A) × (r ≡ found a))
Found-cases (failed err) = inl (err, refl)
Found-cases (found a) = inr (a, refl)

-- A histogram, if metrics are enabled.
abbrev pub timed : Bool → String → Option String
timed enabled namespace = if enabled then some namespace else none

-- An HTTP proxy that was made by these options.
pub record MadeHttp {Glob Handler : Type 0} (lib : Libraries) (name : String)
    (cfg : HttpProxyOptions Handler) (p : HttpProxy Glob Handler) : Type 0 where
  pub cache : set_up_cache lib.parse_redis cfg.shared.cache_config name ≡ found p.cache
  pub hist : p.response_time_hist ≡ timed cfg.shared.metrics_enabled name
  pub handlers : p.endpoint_handlers ≡ cfg.endpoint_handlers

pub new_http_proxy-MadeHttp :
    {Glob Handler : Type 0} (lib : Libraries) (name local_addr remote_addr : String)
    (opts : List (HttpProxyOptions Handler → HttpProxyOptions Handler)) (p : HttpProxy Glob Handler)
    → new_http_proxy lib name local_addr remote_addr opts ≡ found p
    → MadeHttp lib name (apply_options opts default_http_proxy_options) p
unfolding new_http_proxy
new_http_proxy-MadeHttp lib name local_addr remote_addr opts p e =
    let cfg = apply_options opts default_http_proxy_options in
    elim (Option-cases (lib.parse remote_addr)) [
      | inr (err, k) ↦ absurd (let h = rw (k, new_http_proxy) at e in cc)
      | inl k ↦ elim (Found-cases (set_up_cache lib.parse_redis cfg.shared.cache_config name)) [
        | inl (err, s) ↦ absurd (let h = rw (k, s, new_http_proxy) at e in cc)
        | inr (cache, s) ↦
            subst (MadeHttp lib name cfg) (found-injective (rw (k, s, new_http_proxy) at e))
              (record { cache = s; hist = refl; handlers = refl })
      ]
    ]

-- The websocket proxy of a handler, if there is one, shares the handler's cache.
abbrev pub WsMade :
    {Glob : Type 0} → String → Bool → Backing → Option (JsonRpcWebSocketProxy Glob) → Type 0
WsMade name metrics cache none = Unit
WsMade name metrics cache (some p) =
    (p.cache ≡ cache) × (p.response_time_hist ≡ timed metrics (String.◌++◌ "websocket_" name))

pub record MadeHandler {Glob : Type 0} (lib : Libraries) (name : String)
    (cfg : JsonRpcHandlerOptions) (h : JsonRpcHandler Glob) : Type 0 where
  pub cache : set_up_cache lib.parse_redis cfg.shared.cache_config name ≡ found h.cache
  pub hist : h.response_time_hist ≡ timed cfg.shared.metrics_enabled name
  pub batch_hist :
      h.batch_res_time_hist ≡ timed cfg.shared.metrics_enabled (String.◌++◌ name "_batch")
  pub ws : WsMade name cfg.shared.metrics_enabled h.cache h.ws_proxy

web_socket_proxy-WsMade :
    {Glob : Type 0} (name backend path : String) (n : ℕ) (kind : UpstreamKind) (cache : Backing)
    (metrics : Bool) (p : JsonRpcWebSocketProxy Glob)
    → new_json_rpc_web_socket_proxy name backend path n kind cache metrics ≡ ok p
    → WsMade name metrics cache (some p)
unfolding new_json_rpc_web_socket_proxy
web_socket_proxy-WsMade name backend path n kind cache metrics p e =
    let (broker, e1, e2) =
      >>=-eq-ok
        (new_broker {Conn = Unconnected}
          (λ host path. record { kind = kind; host = host; path = path }) backend path n)
        _ e in
    subst (λ x. WsMade name metrics cache (some x)) (ok-injective e2) (refl, refl)

ws_proxy_of-WsMade :
    {Glob : Type 0} (name : String) (cfg : JsonRpcHandlerOptions) (cache : Backing)
    (ws : Option (JsonRpcWebSocketProxy Glob))
    → ws_proxy_of name cfg cache ≡ ok ws
    → WsMade name cfg.shared.metrics_enabled cache ws
unfolding ws_proxy_of
ws_proxy_of-WsMade name cfg cache ws e = elim (Bool-cases cfg.websocket_enabled) [
  | inl on ↦
      let (p, e1, e2) =
        >>=-eq-ok
          (new_json_rpc_web_socket_proxy name cfg.websocket_backend cfg.websocket_path
            cfg.websocket_connections cfg.upstream_constructor cache cfg.shared.metrics_enabled)
          _ (rw (on, ws_proxy_of) at e) in
      subst (WsMade name cfg.shared.metrics_enabled cache) (ok-injective e2)
        (web_socket_proxy-WsMade name _ _ _ _ cache _ p e1)
  | inr off ↦
      subst (WsMade name cfg.shared.metrics_enabled cache)
        (ok-injective (rw (off, ws_proxy_of) at e)) tt
]

pub new_json_rpc_handler-MadeHandler :
    {Glob : Type 0} (lib : Libraries) (name : String)
    (opts : List (JsonRpcHandlerOptions → JsonRpcHandlerOptions)) (h : JsonRpcHandler Glob)
    → new_json_rpc_handler lib name opts ≡ ok (found h)
    → MadeHandler lib name (apply_options opts default_json_rpc_handler_options) h
unfolding new_json_rpc_handler
new_json_rpc_handler-MadeHandler lib name opts h e =
    let cfg = apply_options opts default_json_rpc_handler_options in
    elim (Found-cases (set_up_cache lib.parse_redis cfg.shared.cache_config name)) [
      | inl (err, s) ↦ absurd (let k = ok-injective (rw (s, new_json_rpc_handler) at e) in cc)
      | inr (cache, s) ↦
          let (ws, e1, e2) =
            >>=-eq-ok (ws_proxy_of name cfg cache) _ (rw (s, new_json_rpc_handler) at e) in
          subst (MadeHandler lib name cfg) (found-injective (ok-injective e2)) (record {
            cache = s;
            hist = refl;
            batch_hist = refl;
            ws = ws_proxy_of-WsMade name cfg cache ws e1;
          })
    ]
