-- ===== src/Rules.antt =====
-- pkg/cosmoguard/rules.go: the three kinds of rules.
pub mod Http
pub mod Patterns
pub mod Params
pub mod Calls
pub mod Panics
pub mod JsonRpc
pub mod Grpc
use cosmoguard.Prelude.{ℕ, Bool, String}

-- `RuleAction` is any text of the configuration file; two have a meaning.
abbrev pub RuleAction : Type 0
RuleAction = String

abbrev pub allow : RuleAction
allow = "allow"

abbrev pub deny : RuleAction
deny = "deny"

-- `RuleCache` of config.go. A `time.Duration` is its 64-bit pattern, in nanoseconds.
pub record RuleCache : Type 0 where
  pub enable : Bool
  pub ttl : ℕ
  pub cache_error : Bool
  pub cache_empty_result : Bool
