-- ===== src/Cache.antt =====
-- pkg/cache/cache.go: the interface `Cache`, which the memory and the Redis cache implement. Each
-- call may change the cache's state, since entries run out on their own between calls.
pub mod Memory
pub mod Redis
pub mod Options
use cosmoguard.Prelude.{ℕ, Bool, String, Option}

abbrev pub Error : Type 0
Error = String

-- What `Get` returns: a value, or an error such as `ErrNotFound`.
pub data Found (V : Type 0) : Type 0 where
  found : V → Found V
  failed : Error → Found V

pub record Cache (K V : Type 0) : Type 1 where
  pub State : Type 0
  pub set : K → V → ℕ → State → State × Option Error
  pub get : K → State → State × Found V
  pub has : K → State → State × Bool × Option Error
