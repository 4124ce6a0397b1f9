-- ===== src/Cache/Options.antt =====
-- The construction of a cache: pkg/cache/options.go, `NewMemoryCache` of pkg/cache/memory.go and
-- `NewRedisCache` of pkg/cache/redis.go. Where a cache keeps its entries is a value; the libraries
-- turn it into a cache.
use cosmoguard.Prelude.{ℕ, List, [], ◌∷◌, String, Option, none, some}
use cosmoguard.Cache.{Cache, Found, found, failed, Error}
use cosmoguard.Cache.Memory.{TtlCache, NamespacedKey, memory_cache}
use cosmoguard.Cache.Redis.{
  RedisClient, MsgPack, RedisSentinel, Target, failover, single, missing, connect_to, redis_cache,
}

-- A `time.Duration` counts nanoseconds.
pub record Options : Type 0 where
  pub ttl : ℕ

abbrev pub default_options : Options
default_options = record { ttl = 5000000000 }

unfoldable pub default_ttl : ℕ → Options → Options
default_ttl ttl o = record o { ttl = ttl }

-- `for _, opt := range opts { opt(options) }`, here and for the options of the proxies.
unfoldable pub apply_options {ℓ} : {T : Type ℓ} → List (T → T) → T → T
apply_options [] t = t
apply_options (opt ∷ opts) t = apply_options opts (opt t)

-- The fields of a `MemoryCache` or a `RedisCache`: the lifetime of entries that are given none, the
-- namespace, and the server.
pub data Backing : Type 0 where
  in_memory : (namespace : String) (ttl : ℕ) → Backing
  in_redis : (target : Target) (namespace : String) (ttl : ℕ) → Backing

unfoldable pub new_memory_cache : String → List (Options → Options) → Backing
unfolding apply_options
new_memory_cache namespace opts =
    let o = apply_options opts default_options in in_memory namespace o.ttl

-- `parse_url` is the error of `redis.ParseURL`, if any.
unfoldable pub new_redis_cache :
    (String → Option Error)
    → Option String
    → Option RedisSentinel
    → String
    → List (Options → Options)
    → Found Backing
unfolding apply_options connect_to
new_redis_cache parse_url connection_string sentinel namespace opts =
    let o = apply_options opts default_options in
    elim (connect_to connection_string sentinel) [
      | failover s ↦ found (in_redis (failover s) namespace o.ttl)
      | single url ↦ elim (parse_url url) [
        | some err ↦ failed err
        | none ↦ found (in_redis (single url) namespace o.ttl)
      ]
      | missing ↦ failed "either connectionString or sentinel configuration must be provided"
    ]

-- The client libraries: a table with a lifetime of its own for each cache in memory, and the client
-- of a Redis server.
pub record CacheLibs (K V : Type 0) : Type 1 where
  pub table : ℕ → TtlCache (NamespacedKey K) V
  pub client : Target → RedisClient
  pub pack : MsgPack V
  pub show : K → String

unfoldable pub cache_of : {K V : Type 0} → CacheLibs K V → Backing → Cache K V
cache_of libs (in_memory namespace ttl) = memory_cache (libs.table ttl) namespace
cache_of libs (in_redis target namespace ttl) =
    redis_cache (libs.client target) libs.pack libs.show namespace ttl
