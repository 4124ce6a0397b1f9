-- ===== src/Rules/Grpc.antt =====
-- `GrpcRule` of rules.go.
use cosmoguard.Prelude.{ℕ, Bool, true, not, List, [], ◌∷◌, String, is_nil, if◌then◌else◌}
use cosmoguard.Go.{Result, ok, ◌>>=◌}
use cosmoguard.Glob.{Globs, compile_all}
use cosmoguard.Rules.{RuleAction}
use cosmoguard.Rules.Http.{any_glob}

pub record GrpcRule (Glob : Type 0) : Type 0 where
  pub priority : ℕ  -- int, a 64-bit pattern
  pub action : RuleAction
  pub methods : List String
  pub method_globs : List Glob

module _ (lib : Globs) where
  unfoldable pub compile : GrpcRule lib.Glob → Result (GrpcRule lib.Glob)
  compile r =
      if not (is_nil r.methods)
      then (do globs ← compile_all lib ("/" ∷ []) r.methods; ok (record r { method_globs = globs }))
      else ok r

  unfoldable pub match : GrpcRule lib.Glob → String → Bool
  match r method = if is_nil r.methods then true else any_glob lib r.method_globs method
