-- ===== src/Tests/Guard.antt =====
-- The theorems on the guard of cosmoguard.go at the files of Tests/Config: the empty one enables no EVM.
use Prim.Native.String
use cosmoguard.Prelude.{
  ◌≢◌, All, inl, inr, arith, eq_iff, ℕ, ◌≡◌, refl, [], ◌∷◌, true, String, Option, none, some,
  nat_eq, List, ◌↔◌,
}
use cosmoguard.Go.{panic, nil_dereference, ok, int_lt, itoa}
use cosmoguard.Glob.{compile_all, must_compile}
use cosmoguard.Cache.{found}
use cosmoguard.Rules.Http
use cosmoguard.Rules.Http.{HttpRule}
use cosmoguard.Config.{
  Config, prepare_http, prepare_grpc, prepare_json_rpc, prepare_all, prepare, by_priority,
  compile_each, read, finish, load,
}
use cosmoguard.Guard.{
  CosmoGuard, EndpointHandler, jsonrpc, evm_jsonrpc, evm_jsonrpc_ws, made, apply_rules, apply_base,
  load_config, reload, watch,
}
use cosmoguard.Guard.Parts.{Libraries, new_grpc_proxy, new_http_proxy, new_json_rpc_handler}
use cosmoguard.Guard.New.{new, endpoint, address}
use cosmoguard.HttpProxy.{HttpProxy, Endpoint}
use cosmoguard.Cache.Options.{Backing, in_memory, in_redis, default_ttl}
use cosmoguard.Ws.Upstream.{Unconnected, cosmos, eth}
use cosmoguard.Cache.Redis.{single, get_key}
use cosmoguard.Ws.Proxy.{JsonRpcWebSocketProxy}
use cosmoguard.JsonRpc.Handler.{JsonRpcHandler}
use cosmoguard.Guard.Caches.{Backed, caches, new-Backed}
use cosmoguard.Guard.Keys.{new-keys_apart}
use cosmoguard.Ws.Pool.{connections}
use cosmoguard.Ws.Subscriptions.{new_subscription_manager}
use cosmoguard.Options.{
  with_cache_config, with_metrics_enabled, with_endpoint_handler, with_web_socket_backend,
  with_web_socket_enabled, with_web_socket_connections, with_web_socket_path, with_upstream_manager,
}
use cosmoguard.Guard.InForce.{InForce}
use cosmoguard.Guard.Reload.{Watched, watch-InForce, new-apply_rules, reload-panics_iff}
use cosmoguard.Tests.Sorting.{insertion, put}
use cosmoguard.Tests.Upstream.{server, pack}
use cosmoguard.Tests.Config.{config_deps, filled, filled_evm, evm_loads}

abbrev pub libraries : Libraries
libraries = record {
  parse = λ u. none;
  listen = λ a. none;
  dial = λ a. none;
  parse_redis = λ u. none;
}

module _ (backing : String → Backing) where
  abbrev http_proxy :
      String
      → String
      → String
      → List (List Endpoint × EndpointHandler)
      → HttpProxy String EndpointHandler
  http_proxy name addr remote handlers = record {
    default_action = "";
    rules = [];
    endpoint_handlers = handlers;
    cache = backing name;
    addr = addr;
    remote = remote;
    response_time_hist = some name;
  }

  abbrev ws_proxy : String → Unconnected → String → JsonRpcWebSocketProxy String
  ws_proxy name upstream host = record {
    rules = [];
    default_action = "";
    broker = record {
      pool = record {
        conn = connections upstream 10;
        conn_idx = 0;
        subscription_conn = [];
        subscription_id = [];
        subscription_param = [];
      };
      sm = new_subscription_manager;
    };
    cache = backing name;
    ws_backend = host;
    response_time_hist = some (String.◌++◌ "websocket_" name);
  }

  abbrev handler : String → String → Option (JsonRpcWebSocketProxy String) → JsonRpcHandler String
  handler name path ws = record {
    default_action = "";
    ws_proxy = ws;
    ws_path = path;
    rules = [];
    cache = backing name;
    response_time_hist = some name;
    batch_res_time_hist = some (String.◌++◌ name "_batch");
  }

  abbrev guard : Config String → CosmoGuard String
  guard c = record {
    cfg = some c;
    lcd_proxy = http_proxy "lcd" "0.0.0.0:2" "http://node:2" [];
    rpc_proxy =
        http_proxy "rpc" "0.0.0.0:1" "http://node:1"
          ((endpoint "/" "POST" ∷ endpoint "/websocket" "GET" ∷ [], jsonrpc) ∷ []);
    grpc_proxy = record {
      default_action = "";
      rules = [];
      listener = "0.0.0.0:3";
      client = "node:3";
    };
    json_rpc_handler = handler "jsonrpc" "/websocket" (
        some (
          ws_proxy "jsonrpc" (record { kind = cosmos; host = "node:1"; path = "/websocket" })
            "node:1"));
    evm_rpc_proxy = none;
    evm_rpc_ws_proxy = none;
    evm_json_rpc_handler = none;
    evm_json_rpc_ws_handler = none;
  }

abbrev plain : CosmoGuard String
plain = guard (λ name. in_memory name 5) filled

abbrev on_redis : String → Backing
on_redis name = in_redis (single "redis://cache") (String.◌++◌ "guard_" name) 60

-- The guard for EVM, with its caches on the server.
abbrev pub evm : CosmoGuard String
evm = record (guard on_redis filled_evm) {
  evm_rpc_proxy = some (
      http_proxy on_redis "evm_rpc" "0.0.0.0:4" "http://node:4"
        ((endpoint "/" "POST" ∷ [], evm_jsonrpc) ∷ []));
  evm_rpc_ws_proxy = some (
      http_proxy on_redis "evm_rpc_ws" "0.0.0.0:5" "http://node:5"
        ((endpoint "/" "GET" ∷ [], evm_jsonrpc_ws) ∷ []));
  evm_json_rpc_handler = some (handler on_redis "evm_jsonrpc" "/websocket" none);
  evm_json_rpc_ws_handler = some (
      handler on_redis "evm_jsonrpc_ws" "/" (
        some (
          ws_proxy on_redis "evm_jsonrpc_ws" (record { kind = eth; host = "node:5"; path = "/" })
            "node:5")));
}

plain_made : new config_deps libraries (found []) ≡ ok (made plain)
unfolding new new_grpc_proxy new_http_proxy with_metrics_enabled with_cache_config
    new_json_rpc_handler with_web_socket_connections with_web_socket_backend with_web_socket_enabled
    with_endpoint_handler default_ttl address itoa load finish prepare_all prepare_http prepare_grpc
    prepare_json_rpc prepare by_priority compile_each insertion put Http.compile compile_all
    must_compile int_lt
plain_made = refl

new-apply_rules_example :
    (r : CosmoGuard String) × (c : Config String) × (apply_rules plain ≡ ok r)
    × (load config_deps (found []) ≡ ok (read c none))
    × InForce c plain r
new-apply_rules_example = new-apply_rules config_deps libraries (found []) plain plain_made

abbrev ruled : CosmoGuard String
ruled = apply_base filled plain

plain_changes : watch config_deps (found [] ∷ []) plain ≡ ok (ruled, none)
unfolding watch reload load_config apply_rules load finish prepare_all prepare_http prepare_grpc
    prepare_json_rpc prepare by_priority compile_each insertion put Http.compile compile_all
    must_compile int_lt
plain_changes = refl

watch-InForce_example : Watched config_deps [] (found []) plain ruled
watch-InForce_example = watch-InForce config_deps [] (found []) plain ruled plain_changes

reload-panics_iff_example :
    (reload config_deps (found (1 ∷ [])) plain ≡ panic nil_dereference)
    ↔ ((filled_evm.enable_evm ≡ true) × (plain.evm_rpc_proxy ≡ none))
reload-panics_iff_example =
    reload-panics_iff config_deps (found (1 ∷ [])) plain filled_evm evm_loads refl refl

pub evm_made : new config_deps libraries (found (1 ∷ [])) ≡ ok (made evm)
unfolding new new_grpc_proxy new_http_proxy with_metrics_enabled with_cache_config
    new_json_rpc_handler with_web_socket_connections with_web_socket_backend with_web_socket_enabled
    with_web_socket_path with_upstream_manager with_endpoint_handler default_ttl address itoa load
    finish prepare_all prepare_http prepare_grpc prepare_json_rpc prepare by_priority compile_each
    insertion put Http.compile compile_all must_compile int_lt
evm_made = refl

new-Backed_example :
    (c : Config String) × (load config_deps (found (1 ∷ [])) ≡ ok (read c none))
    × All (Backed c.cache) (caches evm)
new-Backed_example = new-Backed config_deps libraries (found (1 ∷ [])) evm evm_made

abbrev shown : ℕ → String
shown n = itoa n

new-keys_apart_example :
    get_key {K = ℕ} server pack shown "guard_jsonrpc" 60 7
    ≢ get_key {K = ℕ} server pack shown "guard_evm_jsonrpc" 60 7
new-keys_apart_example =
    new-keys_apart server server pack pack shown shown config_deps libraries (found (1 ∷ [])) evm
      "jsonrpc" "evm_jsonrpc" "guard_jsonrpc" "guard_evm_jsonrpc" (single "redis://cache")
      (single "redis://cache") 60 60 7 7 evm_made (inr (inl refl)) (inr (inr (inr (inl refl))))
      (ground (arith, eq_iff "jsonrpc" "evm_jsonrpc"))
