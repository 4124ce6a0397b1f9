-- ===== src/Rules/JsonRpc.antt =====
-- `JsonRpcRule` of rules.go, which matches a request by its method and its parameters.
use cosmoguard.Prelude.{
  ℕ, suc, Bool, true, false, ◌||◌, not, List, [], ◌∷◌, String, Option, none, some, is_nil, lookup,
  insert, string_eq, if◌then◌else◌,
}
use cosmoguard.Go.{
  Result, ok, ◌>>=◌, Value, dict, slice, Values, empty, item, Fields, end, field, has_fields,
  has_values, get, get_or_nil, index, as_string, iface_eq, itoa,
}
use cosmoguard.Glob.{Globs, must_compile, compile_all}
use cosmoguard.Rules.{RuleAction, RuleCache}

pub record JsonRpcRule (Glob : Type 0) : Type 0 where
  pub priority : ℕ  -- int, a 64-bit pattern
  pub action : RuleAction
  pub methods : List String
  pub params : Value
  pub cache : Option RuleCache
  pub method_globs : List Glob
  pub params_globs : List (String × Glob)
  pub params_map : Bool
  pub params_slice : Bool

module _ (lib : Globs) where
  -- The loop of `Compile` over a map of parameters.
  unfoldable pub compile_fields :
      Fields → List (String × lib.Glob) → Result (List (String × lib.Glob))
  compile_fields end globs = ok globs
  compile_fields (field k v ps) globs = elim (as_string v) [
    | none ↦ compile_fields ps globs
    | some value ↦ do g ← must_compile lib value ("/" ∷ []); compile_fields ps (insert k g globs)
  ]

  -- The loop of `Compile` over a slice of parameters, from index `i` on.
  unfoldable pub compile_values :
      ℕ → Values → List (String × lib.Glob) → Result (List (String × lib.Glob))
  compile_values i empty globs = ok globs
  compile_values i (item v ps) globs = elim (as_string v) [
    | none ↦ compile_values (suc i) ps globs
    | some value ↦ do
      g ← must_compile lib value ("/" ∷ [])
      compile_values (suc i) ps (insert (itoa i) g globs)
  ]

  unfoldable pub compile_params : Value → JsonRpcRule lib.Glob → Result (JsonRpcRule lib.Glob)
  compile_params (dict ps) r = do
    globs ← compile_fields ps r.params_globs
    ok (record r { params_map = has_fields ps; params_globs = globs })
  compile_params (slice ps) r = do
    globs ← compile_values 0 ps r.params_globs
    ok (record r { params_slice = has_values ps; params_globs = globs })
  compile_params _ r = ok r

  unfoldable pub compile_methods : JsonRpcRule lib.Glob → Result (JsonRpcRule lib.Glob)
  compile_methods r =
      if not (is_nil r.methods)
      then (do globs ← compile_all lib [] r.methods; ok (record r { method_globs = globs }))
      else ok r

  unfoldable pub compile : JsonRpcRule lib.Glob → Result (JsonRpcRule lib.Glob)
  compile r = do r' ← compile_methods r; compile_params r'.params r'

  -- The loop of `Match` over the rule's methods: it does not stop at the first match.
  unfoldable pub method_match : List lib.Glob → String → Bool → Bool
  method_match [] method found = found
  method_match (g ∷ gs) method found =
      method_match gs method (if lib.matches g method then true else found)

  -- One parameter of the rule against the request's parameter with the same key, if it has one.
  unfoldable pub param_match : Option lib.Glob → Value → Option Value → Value → Result Bool
  param_match (some g) v none _ = ok false
  param_match (some g) v (some w) _ = elim (as_string w) [
    | none ↦ ok false
    | some s ↦ ok (lib.matches g s)
  ]
  param_match none v _ w = iface_eq v w

  -- The loop of `Match` over the rule's parameters, where both sides are maps.
  unfoldable pub match_fields : List (String × lib.Glob) → Fields → Fields → Result Bool
  match_fields globs end req = ok true
  match_fields globs (field k v ps) req = do
    same ← param_match (lookup k globs) v (get k req) (get_or_nil k req)
    let rest = match_fields globs ps req
    if same then rest else ok false

  -- The same where both are slices. Either branch first reads `requestParams[i]`.
  unfoldable pub match_values : List (String × lib.Glob) → ℕ → Values → Values → Result Bool
  match_values globs i empty req = ok true
  match_values globs i (item v ps) req = do
    w ← index req i
    same ← param_match (lookup (itoa i) globs) v (some w) w
    let rest = match_values globs (suc i) ps req
    if same then rest else ok false

  -- The part of `Match` that follows the methods, by the request's parameters and the rule's.
  unfoldable pub match_params : JsonRpcRule lib.Glob → Value → Value → Result Bool
  match_params r (dict req) (dict ps) =
      if not r.params_map then ok true else match_fields r.params_globs ps req
  match_params r (dict req) _ = if not r.params_map then ok true else ok false
  match_params r (slice req) (slice ps) =
      if not r.params_slice then ok true else match_values r.params_globs 0 ps req
  match_params r (slice req) _ = if not r.params_slice then ok true else ok false
  match_params r _ _ = ok false

  unfoldable pub match : JsonRpcRule lib.Glob → String → Value → Result Bool
  match r method params =
      if not (method_match r.method_globs method (is_nil r.methods))
      then ok false
      else if not (r.params_map || r.params_slice)
      then ok true
      else match_params r params r.params
