-- ===== src/Cache/Memory.antt =====
-- `MemoryCache` of pkg/cache/memory.go. The table of github.com/jellydator/ttlcache is a parameter;
-- its keys carry the namespace of the cache.
use cosmoguard.Prelude.{ℕ, Bool, String, Option, none, some}
use cosmoguard.Cache.{Cache, Found, found, failed}

-- `Get` returns no item for a key that it does not hold.
pub record TtlCache (K V : Type 0) : Type 1 where
  pub State : Type 0
  pub set : K → V → ℕ → State → State
  pub get : K → State → State × Option V
  pub has : K → State → State × Bool

pub record NamespacedKey (K : Type 0) : Type 0 where
  pub namespace : String
  pub key : K

abbrev pub err_not_found : String
err_not_found = "item not found in cache"

abbrev pub found_or : {V : Type 0} → Option V → Found V
found_or none = failed err_not_found
found_or (some v) = found v

module _ {K V : Type 0} (table : TtlCache (NamespacedKey K) V) (namespace : String) where
  abbrev pub key_of : K → NamespacedKey K
  key_of k = record { namespace = namespace; key = k }

  abbrev pub memory_cache : Cache K V
  memory_cache = record {
    State = table.State;
    set = λ k v ttl s. (table.set (key_of k) v ttl s, none);
    get = λ k s. let (s', item) = table.get (key_of k) s in (s', found_or item);
    has = λ k s. let (s', b) = table.has (key_of k) s in (s', b, none);
  }
