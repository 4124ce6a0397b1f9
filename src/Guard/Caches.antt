-- ===== src/Guard/Caches.antt =====
-- Where the parts of a guard keep their entries: the caches that cosmoguard.go has made, in
-- pkg/cache/memory.go or pkg/cache/redis.go.
use Prim.Native.String
use mathlib.Core.Option
use cosmoguard.Prelude.{
  ◌≡◌, ◌≢◌, refl, sym, ap, ◌∙◌, false, List, [], ◌∷◌, String, none, some, All, ◌⊎◌, inl, inr,
  Option-cases, Bool, Bool-cases, is_some, ◌||◌, if◌then◌else◌,
}
use cosmoguard.Go.{ok, Bytes}
use cosmoguard.Cache.{Error, Found, found, failed}
use cosmoguard.Cache.Redis.{Target, failover, single, missing, connect_to}
use cosmoguard.Cache.Options.{
  Backing, in_memory, in_redis, apply_options, default_ttl, new_memory_cache, new_redis_cache,
}
use cosmoguard.Config.{Config, CacheGlobalConfig, ConfigDeps, load, read}
use cosmoguard.HttpProxy.{HttpProxy}
use cosmoguard.JsonRpc.Handler.{JsonRpcHandler}
use cosmoguard.Options.{
  with_cache_config, with_metrics_enabled, with_endpoint_handler, with_web_socket_backend,
  with_web_socket_enabled, with_web_socket_connections, with_web_socket_path, with_upstream_manager,
}
use cosmoguard.Guard.{CosmoGuard, EndpointHandler, made}
use cosmoguard.Guard.Parts.{Libraries, set_up_cache, sentinel_of}
use cosmoguard.Guard.Parts.Laws.{new_http_proxy-MadeHttp, new_json_rpc_handler-MadeHandler}
use cosmoguard.Guard.New.{new}
use cosmoguard.Guard.Shape.{Base, Evm, ByEvm, new-Base}

-- The caches of a guard, by the names of their parts; a websocket proxy has that of its handler.
abbrev pub optional :
    String → Option.Option Backing → List (String × Backing) → List (String × Backing)
optional name none rest = rest
optional name (some b) rest = (name, b) ∷ rest

module _ {Glob : Type 0} where
  abbrev pub http : HttpProxy Glob EndpointHandler → Backing
  http p = p.cache

  abbrev pub rpc : JsonRpcHandler Glob → Backing
  rpc h = h.cache

  abbrev pub caches : CosmoGuard Glob → List (String × Backing)
  caches g =
      ("lcd", g.lcd_proxy.cache)
      ∷ ("jsonrpc", g.json_rpc_handler.cache)
      ∷ ("rpc", g.rpc_proxy.cache)
      ∷ optional "evm_jsonrpc" (Option.map rpc g.evm_json_rpc_handler) (
          optional "evm_rpc" (Option.map http g.evm_rpc_proxy) (
            optional "evm_jsonrpc_ws" (Option.map rpc g.evm_json_rpc_ws_handler)
              (optional "evm_rpc_ws" (Option.map http g.evm_rpc_ws_proxy) [])))

-- The cache of a part is in memory, under the part's name, or on the Redis server that the
-- configuration names, under its key and the part's name. Entries live as long as it says.
abbrev pub Backed : CacheGlobalConfig → String × Backing → Type 0
Backed c (name, b) =
    ((c.redis ≡ none) × (c.redis_sentinel ≡ none) × (b ≡ in_memory name c.ttl))
    ⊎ ((t : Target) × (t ≡ connect_to c.redis (sentinel_of c.redis_sentinel))
        × (t ≢ missing)
        × (b ≡ in_redis t (String.◌++◌ c.key name) c.ttl))

found_lem : {a b : Backing} → ◌≡◌ {A = Found Backing} (found a) (found b) → b ≡ a
found_lem e = cc

redis_lem :
    (parse : String → Option.Option Error) (c : CacheGlobalConfig) (name : String) (b : Backing)
    → new_redis_cache parse c.redis
        (sentinel_of c.redis_sentinel)
        (String.◌++◌ c.key name)
        (default_ttl c.ttl ∷ [])
      ≡ found b
    → Backed c (name, b)
unfolding new_redis_cache apply_options default_ttl
redis_lem parse c name b e = by_target (connect_to c.redis (sentinel_of c.redis_sentinel)) refl e
  where
    namespace : String
    namespace = String.◌++◌ c.key name

    by_url : String → Option.Option Error → Found Backing
    by_url url o = elim o [
      | some err ↦ failed err
      | none ↦ found (in_redis (single url) namespace c.ttl)
    ]

    result : Target → Found Backing
    result t = elim t [
      | failover s ↦ found (in_redis (failover s) namespace c.ttl)
      | single url ↦ by_url url (parse url)
      | missing ↦ failed "either connectionString or sentinel configuration must be provided"
    ]

    by_target :
        (t : Target)
        → t ≡ connect_to c.redis (sentinel_of c.redis_sentinel)
        → result t ≡ found b
        → Backed c (name, b)
    by_target (failover s) k h = inr (failover s, k, cc, found_lem h)
    by_target (single url) k h = elim (Option-cases (parse url)) [
      | inr (err, x) ↦ absurd (let y = sym (ap (by_url url) x) ∙ h in cc)
      | inl x ↦ inr (single url, k, cc, found_lem (sym (ap (by_url url) x) ∙ h))
    ]
    by_target missing k h = absurd (cc)

neither :
    {A B : Type 0} (a : Option.Option A) (b : Option.Option B)
    → is_some a || is_some b ≡ false
    → (a ≡ none) × (b ≡ none)
neither none none e = (refl, refl)
neither (some a) b e = absurd (cc)
neither none (some b) e = absurd (cc)

set_up_cache-Backed :
    (parse : String → Option.Option Error) (c : CacheGlobalConfig) (name : String) (b : Backing)
    → set_up_cache parse (some c) name ≡ found b
    → Backed c (name, b)
unfolding set_up_cache new_memory_cache apply_options default_ttl
set_up_cache-Backed parse c name b e =
    let branch : Bool → Found Backing = λ redis.
      if redis
      then new_redis_cache parse c.redis (sentinel_of c.redis_sentinel) (String.◌++◌ c.key name)
          (default_ttl c.ttl ∷ [])
      else found (in_memory name c.ttl) in
    elim (Bool-cases (is_some c.redis || is_some c.redis_sentinel)) [
      | inl on ↦ redis_lem parse c name b (sym (ap branch on) ∙ e)
      | inr off ↦
          let (r, k) = neither c.redis c.redis_sentinel off in
          inl (r, k, found_lem (sym (ap branch off) ∙ e))
    ]

module _ {Glob : Type 0} (lib : Libraries) (c : Config Glob) where
  Base-Backed :
      (g : CosmoGuard Glob)
      → Base lib c g
      → Backed c.cache ("lcd", g.lcd_proxy.cache)
        × Backed c.cache ("jsonrpc", g.json_rpc_handler.cache)
        × Backed c.cache ("rpc", g.rpc_proxy.cache)
  unfolding apply_options with_cache_config with_metrics_enabled with_endpoint_handler
      with_web_socket_backend with_web_socket_enabled with_web_socket_connections
  Base-Backed g base = (
    set_up_cache-Backed lib.parse_redis c.cache _ _
        (new_http_proxy-MadeHttp lib _ _ _ _ g.lcd_proxy base.lcd).cache,
    set_up_cache-Backed lib.parse_redis c.cache _ _
        (new_json_rpc_handler-MadeHandler lib _ _ g.json_rpc_handler base.handler).cache,
    set_up_cache-Backed lib.parse_redis c.cache _ _
        (new_http_proxy-MadeHttp lib _ _ _ _ g.rpc_proxy base.rpc).cache,
  )

  Evm-Backed :
      (g : CosmoGuard Glob) (evm : Evm lib c g)
      → Backed c.cache ("evm_jsonrpc", evm.handler.cache)
        × Backed c.cache ("evm_rpc", evm.rpc.cache)
        × Backed c.cache ("evm_jsonrpc_ws", evm.ws_handler.cache)
        × Backed c.cache ("evm_rpc_ws", evm.ws.cache)
  unfolding apply_options with_cache_config with_metrics_enabled with_endpoint_handler
      with_web_socket_backend with_web_socket_enabled with_web_socket_connections
      with_web_socket_path with_upstream_manager
  Evm-Backed g evm = (
    set_up_cache-Backed lib.parse_redis c.cache _ _
        (new_json_rpc_handler-MadeHandler lib _ _ evm.handler evm.handler_made).cache,
    set_up_cache-Backed lib.parse_redis c.cache _ _
        (new_http_proxy-MadeHttp lib _ _ _ _ evm.rpc evm.rpc_made).cache,
    set_up_cache-Backed lib.parse_redis c.cache _ _
        (new_json_rpc_handler-MadeHandler lib _ _ evm.ws_handler evm.ws_handler_made).cache,
    set_up_cache-Backed lib.parse_redis c.cache _ _
        (new_http_proxy-MadeHttp lib _ _ _ _ evm.ws evm.ws_made).cache,
  )

  caches-Backed :
      (g : CosmoGuard Glob) → Base lib c g → ByEvm lib c g → All (Backed c.cache) (caches g)
  caches-Backed g base (inl (on, evm)) =
      let (lcd, handler, rpc) = Base-Backed g base in
      let (h, r, wh, w) = Evm-Backed g evm in
      rw (evm.handler_at, evm.rpc_at, evm.ws_handler_at, evm.ws_at)
        (lcd, (handler, (rpc, (h, (r, (wh, (w, tt)))))))
  caches-Backed g base (inr (off, evm)) =
      let (lcd, handler, rpc) = Base-Backed g base in
      rw (evm.handler, evm.rpc, evm.ws_handler, evm.ws) (lcd, (handler, (rpc, tt)))

-- Every cache of a guard that `New` returns is where the configuration puts it: all in memory, or all
-- on the Redis server, each under the name of its part, with the lifetime of the configuration.
pub new-Backed :
    (d : ConfigDeps) (lib : Libraries) (file : Found Bytes) (g : CosmoGuard d.globs.Glob)
    → new d lib file ≡ ok (made g)
    → (c : Config d.globs.Glob) × (load d file ≡ ok (read c none)) × All (Backed c.cache) (caches g)
new-Backed d lib file g e =
    let (c, l, base, evm) = new-Base d lib file g e in (c, l, caches-Backed lib c g base evm)
