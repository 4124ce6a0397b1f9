-- ===== src/Guard/Parts.antt =====
-- The constructors of the parts of a guard: `NewHttpProxy` of http_proxy.go, `NewJsonRpcHandler` of
-- jsonrpc_handler.go, `NewJsonRpcWebSocketProxy` of ws_proxy.go and `NewGrpcProxy` of grpc_proxy.go. A
-- part starts with no rules and the empty text for its default action.
pub mod Laws
use Prim.Native.String
use cosmoguard.Prelude.{
  ℕ, Bool, true, false, List, [], ◌∷◌, ◌||◌, String, Option, none, some, if◌then◌else◌, is_some,
}
use cosmoguard.Go.{Result, ok, ◌>>=◌}
use cosmoguard.Cache.{Found, found, failed, Error}
use cosmoguard.Cache.Redis.{RedisSentinel}
use cosmoguard.Cache.Options
use cosmoguard.Cache.Options.{
  Backing, default_ttl, apply_options, new_memory_cache, new_redis_cache,
}
use cosmoguard.Config.{CacheGlobalConfig, RedisSentinelConfig}
use cosmoguard.HttpProxy.{HttpProxy}
use cosmoguard.GrpcProxy.{GrpcProxy}
use cosmoguard.JsonRpc.Handler.{JsonRpcHandler}
use cosmoguard.Ws.Broker.{new_broker}
use cosmoguard.Ws.Proxy.{JsonRpcWebSocketProxy}
use cosmoguard.Ws.Upstream.{UpstreamKind, Unconnected}
use cosmoguard.Options.{
  HttpProxyOptions, default_http_proxy_options, GrpcProxyOptions, default_grpc_proxy_options,
  JsonRpcHandlerOptions, default_json_rpc_handler_options,
}

-- The errors of the libraries, if any: `url.Parse`, `net.Listen`, `grpc.Dial` and `redis.ParseURL`.
pub record Libraries : Type 0 where
  pub parse : String → Option Error
  pub listen : String → Option Error
  pub dial : String → Option Error
  pub parse_redis : String → Option Error

-- `append(cacheOptions, cache.DefaultTTL(cfg.CacheConfig.TTL))`, if there is a `CacheConfig`.
abbrev cache_options : Option CacheGlobalConfig → List (Options.Options → Options.Options)
cache_options none = []
cache_options (some c) = default_ttl c.ttl ∷ []

abbrev pub sentinel_of : Option RedisSentinelConfig → Option RedisSentinel
sentinel_of none = none
sentinel_of (some s) = some (record { master_name = s.master_name; addrs = s.sentinel_addrs })

-- The block `Setup cache`, which `NewHttpProxy` and `NewJsonRpcHandler` share, for a part's name.
unfoldable pub set_up_cache :
    (String → Option Error) → Option CacheGlobalConfig → String → Found Backing
unfolding new_memory_cache new_redis_cache
set_up_cache parse_redis none name = found (new_memory_cache name [])
set_up_cache parse_redis (some c) name =
    if is_some c.redis || is_some c.redis_sentinel
    then new_redis_cache parse_redis c.redis (sentinel_of c.redis_sentinel) (String.◌++◌ c.key name)
        (cache_options (some c))
    else found (new_memory_cache name (cache_options (some c)))

unfoldable pub new_http_proxy :
    {Glob Handler : Type 0}
    → Libraries
    → String
    → String
    → String
    → List (HttpProxyOptions Handler → HttpProxyOptions Handler)
    → Found (HttpProxy Glob Handler)
unfolding apply_options set_up_cache
new_http_proxy lib name local_addr remote_addr opts =
    let cfg = apply_options opts default_http_proxy_options in
    elim (lib.parse remote_addr) [
      | some err ↦ failed err
      | none ↦ elim (set_up_cache lib.parse_redis cfg.shared.cache_config name) [
        | failed err ↦ failed err
        | found cache ↦ found (record {
          default_action = "";
          rules = [];
          endpoint_handlers = cfg.endpoint_handlers;
          cache = cache;
          addr = local_addr;
          remote = remote_addr;
          response_time_hist = if cfg.shared.metrics_enabled then some name else none;
        })
      ]
    ]

unfoldable pub new_grpc_proxy :
    {Glob : Type 0}
    → Libraries
    → String
    → String
    → String
    → List (GrpcProxyOptions → GrpcProxyOptions)
    → Found (GrpcProxy Glob)
new_grpc_proxy lib name local_addr remote_addr opts = elim (lib.listen local_addr) [
  | some err ↦ failed err
  | none ↦ elim (lib.dial remote_addr) [
    | some err ↦ failed err
    | none ↦
        found
          (record { default_action = ""; rules = []; listener = local_addr; client = remote_addr })
  ]
]

unfoldable pub new_json_rpc_web_socket_proxy :
    {Glob : Type 0}
    → String
    → String
    → String
    → ℕ
    → UpstreamKind
    → Backing
    → Bool
    → Result (JsonRpcWebSocketProxy Glob)
unfolding new_broker
new_json_rpc_web_socket_proxy name backend path connections kind cache metrics_enabled = do
  broker ←
      new_broker {Conn = Unconnected}
        (λ host path. record { kind = kind; host = host; path = path }) backend path connections
  ok (record {
    rules = [];
    default_action = "";
    broker = broker;
    cache = cache;
    ws_backend = backend;
    response_time_hist = if metrics_enabled then some (String.◌++◌ "websocket_" name) else none;
  })

-- The websocket proxy, if it is enabled.
unfoldable pub ws_proxy_of :
    {Glob : Type 0}
    → String
    → JsonRpcHandlerOptions
    → Backing
    → Result (Option (JsonRpcWebSocketProxy Glob))
unfolding new_json_rpc_web_socket_proxy
ws_proxy_of name cfg cache =
    if cfg.websocket_enabled
    then (do
      p ←
          new_json_rpc_web_socket_proxy name cfg.websocket_backend cfg.websocket_path
            cfg.websocket_connections cfg.upstream_constructor cache cfg.shared.metrics_enabled
      ok (some p))
    else ok none

unfoldable pub new_json_rpc_handler :
    {Glob : Type 0}
    → Libraries
    → String
    → List (JsonRpcHandlerOptions → JsonRpcHandlerOptions)
    → Result (Found (JsonRpcHandler Glob))
unfolding apply_options set_up_cache ws_proxy_of
new_json_rpc_handler lib name opts =
    let cfg = apply_options opts default_json_rpc_handler_options in
    let timed : String → Option String =
      λ namespace. if cfg.shared.metrics_enabled then some namespace else none in
    elim (set_up_cache lib.parse_redis cfg.shared.cache_config name) [
      | failed err ↦ ok (failed err)
      | found cache ↦ (do
        ws ← ws_proxy_of name cfg cache
        ok (
            found (record {
              default_action = "";
              ws_proxy = ws;
              ws_path = cfg.websocket_path;
              rules = [];
              cache = cache;
              response_time_hist = timed name;
              batch_res_time_hist = timed (String.◌++◌ name "_batch");
            })))
    ]
