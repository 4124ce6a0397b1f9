-- ===== src/Options.antt =====
-- The options of the constructors: pkg/cosmoguard/options.go. An option is a function on the record
-- that it sets a field of. The type switches are instances: a type parameter stands only for the types
-- that its constraint names, so the default branch cannot be taken.
use cosmoguard.Prelude.{ℕ, Bool, true, List, [], ◌∷◌, ◌++◌, String, Option, none}
use cosmoguard.Config.{CacheGlobalConfig}
use cosmoguard.HttpProxy.{Endpoint}
use cosmoguard.Ws.Upstream.{UpstreamKind, cosmos}

pub record SharedOptions : Type 0 where
  pub cache_config : Option CacheGlobalConfig
  pub metrics_enabled : Bool

abbrev pub default_shared_options : SharedOptions
default_shared_options = record { cache_config = none; metrics_enabled = true }

pub record HttpProxyOptions (Handler : Type 0) : Type 0 where
  pub shared : SharedOptions
  pub endpoint_handlers : List (List Endpoint × Handler)

abbrev pub default_http_proxy_options : {Handler : Type 0} → HttpProxyOptions Handler
default_http_proxy_options = record { shared = default_shared_options; endpoint_handlers = [] }

pub record GrpcProxyOptions : Type 0 where
  pub shared : SharedOptions

abbrev pub default_grpc_proxy_options : GrpcProxyOptions
default_grpc_proxy_options = record { shared = default_shared_options }

pub record JsonRpcHandlerOptions : Type 0 where
  pub shared : SharedOptions
  pub websocket_backend : String
  pub websocket_enabled : Bool
  pub websocket_connections : ℕ
  pub websocket_path : String
  pub upstream_constructor : UpstreamKind

abbrev pub default_json_rpc_handler_options : JsonRpcHandlerOptions
default_json_rpc_handler_options = record {
  shared = default_shared_options;
  websocket_backend = "localhost:26657";
  websocket_enabled = true;
  websocket_connections = 10;
  websocket_path = "/websocket";
  upstream_constructor = cosmos;
}

-- The types that `WithCacheConfig` takes, with its assignment to their field `CacheConfig`.
pub record HasCacheConfig (T : Type 0) : Type 0 where
  pub set_cache_config : Option CacheGlobalConfig → T → T

instance abbrev pub shared_cache : HasCacheConfig SharedOptions
shared_cache = record { set_cache_config = λ c x. record x { cache_config = c } }

instance abbrev pub http_cache : {Handler : Type 0} → HasCacheConfig (HttpProxyOptions Handler)
http_cache = record {
  set_cache_config = λ c x. record x { shared = record (x.shared) { cache_config = c } };
}

instance abbrev pub json_rpc_cache : HasCacheConfig JsonRpcHandlerOptions
json_rpc_cache = record {
  set_cache_config = λ c x. record x { shared = record (x.shared) { cache_config = c } };
}

-- A nil pointer is allowed.
unfoldable pub with_cache_config :
    {T : Type 0} ⦃has : HasCacheConfig T⦄ → Option CacheGlobalConfig → T → T
with_cache_config ⦃has⦄ c opts = has.set_cache_config c opts

-- The types that `WithMetricsEnabled` takes.
pub record HasMetrics (T : Type 0) : Type 0 where
  pub set_metrics_enabled : Bool → T → T

instance abbrev pub shared_metrics : HasMetrics SharedOptions
shared_metrics = record { set_metrics_enabled = λ b x. record x { metrics_enabled = b } }

instance abbrev pub http_metrics : {Handler : Type 0} → HasMetrics (HttpProxyOptions Handler)
http_metrics = record {
  set_metrics_enabled = λ b x. record x { shared = record (x.shared) { metrics_enabled = b } };
}

instance abbrev pub json_rpc_metrics : HasMetrics JsonRpcHandlerOptions
json_rpc_metrics = record {
  set_metrics_enabled = λ b x. record x { shared = record (x.shared) { metrics_enabled = b } };
}

instance abbrev pub grpc_metrics : HasMetrics GrpcProxyOptions
grpc_metrics = record {
  set_metrics_enabled = λ b x. record x { shared = record (x.shared) { metrics_enabled = b } };
}

unfoldable pub with_metrics_enabled : {T : Type 0} ⦃has : HasMetrics T⦄ → Bool → T → T
with_metrics_enabled ⦃has⦄ b opts = has.set_metrics_enabled b opts

unfoldable pub with_endpoint_handler :
    {Handler : Type 0}
    → List Endpoint
    → Handler
    → HttpProxyOptions Handler
    → HttpProxyOptions Handler
with_endpoint_handler endpoints handler opts = record opts {
  endpoint_handlers = opts.endpoint_handlers ++ (endpoints, handler) ∷ [];
}

unfoldable pub with_web_socket_backend : String → JsonRpcHandlerOptions → JsonRpcHandlerOptions
with_web_socket_backend backend opts = record opts { websocket_backend = backend }

unfoldable pub with_web_socket_enabled : Bool → JsonRpcHandlerOptions → JsonRpcHandlerOptions
with_web_socket_enabled enabled opts = record opts { websocket_enabled = enabled }

unfoldable pub with_web_socket_connections : ℕ → JsonRpcHandlerOptions → JsonRpcHandlerOptions
with_web_socket_connections v opts = record opts { websocket_connections = v }

unfoldable pub with_web_socket_path : String → JsonRpcHandlerOptions → JsonRpcHandlerOptions
with_web_socket_path path opts = record opts { websocket_path = path }

unfoldable pub with_upstream_manager : UpstreamKind → JsonRpcHandlerOptions → JsonRpcHandlerOptions
with_upstream_manager constructor opts = record opts { upstream_constructor = constructor }
