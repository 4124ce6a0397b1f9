-- ===== src/Rules/Http.antt =====
-- `HttpRule` of rules.go.
use cosmoguard.Prelude.{
  ℕ, Bool, true, false, ◌&&◌, not, List, [], ◌∷◌, String, Option, is_nil, if◌then◌else◌,
}
use cosmoguard.Go.{Result, ok, ◌>>=◌, equal_fold}
use cosmoguard.Glob.{Globs, compile_all}
use cosmoguard.Rules.{RuleAction, RuleCache}

-- What `Match` reads of `*http.Request`.
pub record Target : Type 0 where
  pub method : String
  pub path : String

pub record HttpRule (Glob : Type 0) : Type 0 where
  pub priority : ℕ  -- int, a 64-bit pattern
  pub action : RuleAction
  pub paths : List String
  pub methods : List String
  pub cache : Option RuleCache
  pub path_globs : List Glob

-- `util.SliceContainsStringIgnoreCase`.
unfoldable pub slice_contains_string_ignore_case : List String → String → Bool
slice_contains_string_ignore_case [] key = false
slice_contains_string_ignore_case (k ∷ l) key =
    if equal_fold k key then true else slice_contains_string_ignore_case l key

module _ (lib : Globs) where
  unfoldable pub compile : HttpRule lib.Glob → Result (HttpRule lib.Glob)
  compile r =
      if not (is_nil r.paths)
      then (do globs ← compile_all lib ("/" ∷ []) r.paths; ok (record r { path_globs = globs }))
      else ok r

  -- The loop over the globs in `Match`.
  unfoldable pub any_glob : List lib.Glob → String → Bool
  any_glob [] path = false
  any_glob (g ∷ gs) path = if lib.matches g path then true else any_glob gs path

  unfoldable pub match : HttpRule lib.Glob → Target → Bool
  unfolding any_glob slice_contains_string_ignore_case
  match r req =
      if not (is_nil r.methods) && not (slice_contains_string_ignore_case r.methods req.method)
      then false
      else if is_nil r.paths
      then true
      else any_glob r.path_globs req.path
