-- ===== src/GrpcProxy.antt =====
-- pkg/cosmoguard/grpc_proxy.go: the director that decides for each gRPC call whether it is forwarded.
-- The listener and the connection are their addresses; locks and logs are left out.
pub mod Laws
use cosmoguard.Prelude.{List, [], ◌∷◌, String, if◌then◌else◌, string_eq, ◌==◌}
use text.Mathlib.Text.{starts_with}
use cosmoguard.Glob.{Globs}
use cosmoguard.Rules.{RuleAction, allow, deny}
use cosmoguard.Rules.Grpc.{GrpcRule, match}

pub record GrpcProxy (Glob : Type 0) : Type 0 where
  pub default_action : RuleAction
  pub rules : List (GrpcRule Glob)
  pub listener : String
  pub client : String

-- What `Handle` returns: the connection to the node, with the incoming context or one that carries
-- the metadata on, or the status `Unavailable`.
pub data Routed : Type 0 where
  forwarded forwarded_with_metadata unauthorized : Routed

unfoldable pub set_rules :
    {Glob : Type 0} → GrpcProxy Glob → List (GrpcRule Glob) → RuleAction → GrpcProxy Glob
set_rules p rules default = record p { rules = rules; default_action = default }

module _ (lib : Globs) where
  -- The loop over the rules, and the default action.
  unfoldable pub handle_rules : List (GrpcRule lib.Glob) → RuleAction → String → Routed
  handle_rules [] default method = if default == allow then forwarded else unauthorized
  handle_rules (rule ∷ rules) default method =
      let rest = handle_rules rules default method in
      if match lib rule method
      then (if rule.action == allow
          then forwarded
          else if rule.action == deny
          then unauthorized
          else rest)
      else rest

  unfoldable pub handle : GrpcProxy lib.Glob → String → Routed
  handle p method =
      if starts_with method "/grpc.reflection"
      then forwarded_with_metadata
      else handle_rules p.rules p.default_action method
