-- ===== src/Policy.antt =====
-- What the firewall promises: the first rule that matches, and whose action has a meaning, decides;
-- if there is none, the default action does. Only the text `allow` lets a request pass.
pub mod Laws
use cosmoguard.Prelude.{
  ◌≡◌, ◌≢◌, ◌⊎◌, Bool, true, false, List, [], ◌∷◌, ◌++◌, All, Option, none, string_eq, ◌==◌,
  if◌then◌else◌,
}
use cosmoguard.Go.{Result, ok, ◌>>=◌}
use cosmoguard.Rules.{RuleAction, allow, deny, RuleCache}

-- `permit` carries the caching settings of the rule that allowed the request.
pub data Verdict : Type 0 where
  permit : Option RuleCache → Verdict
  refuse : Verdict

unfoldable pub default_verdict : RuleAction → Verdict
default_verdict default = if default == allow then permit none else refuse

-- What a policy reads of a rule.
pub record View (R : Type 0) : Type 0 where
  pub hits : R → Result Bool
  pub action : R → RuleAction
  pub cache : R → Option RuleCache

module _ {R : Type 0} (view : View R) (default : RuleAction) where
  -- The verdict of one matching rule, or that of the rules behind it.
  unfoldable pub act : R → Result Verdict → Result Verdict
  act r rest =
      if view.action r == allow
      then ok (permit (view.cache r))
      else if view.action r == deny
      then ok refuse
      else rest

  unfoldable pub verdict : List R → Result Verdict
  unfolding act default_verdict
  verdict [] = ok (default_verdict default)
  verdict (r ∷ rs) = do hit ← view.hits r; let rest = verdict rs; if hit then act r rest else rest

module _ {R : Type 0} (view : View R) where
  -- A rule that does not decide: it misses, or its action has no meaning.
  abbrev pub Passes : R → Type 0
  Passes r =
      (view.hits r ≡ ok false)
      ⊎ ((view.hits r ≡ ok true) × (view.action r ≢ allow) × (view.action r ≢ deny))

  -- The first rule of a list that decides, with its action.
  pub record Chosen (a : RuleAction) (rs : List R) : Type 0 where
    pub before : List R
    pub rule : R
    pub after : List R
    pub split : rs ≡ before ++ rule ∷ after
    pub passed : All Passes before
    pub hit : view.hits rule ≡ ok true
    pub acts : view.action rule ≡ a
