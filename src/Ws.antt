-- ===== src/Ws.antt =====
-- The websocket side of pkg/cosmoguard: what ws_utils.go reads of a subscription request, the
-- subscriptions of ws_subscriptions.go, and the pool of connections of ws_upstream_pool.go.
pub mod Utils
pub mod Subscriptions
pub mod Pool
pub mod Client
pub mod Broker
pub mod Proxy
pub mod Upstream
use cosmoguard.Prelude.{String}

-- A value and an error, one of which is nil.
pub data Attempt (A : Type 0) : Type 0 where
  got : A → Attempt A
  failed : String → Attempt A
