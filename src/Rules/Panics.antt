-- ===== src/Rules/Panics.antt =====
-- When matching a JSON-RPC rule panics, and when it cannot.
use cosmoguard.Prelude.{
  ℕ, zero, suc, ◌+◌, ◌≤◌, ◌<◌, ◌≡◌, refl, ap, ◌∙◌, Bool, true, false, ◌||◌, List, String, Option,
  none, some, is_nil, lookup, string_eq, if◌then◌else◌, arith, Bool-cases, inl, inr,
}
use native.Mathlib.Nat.{add-zero, zero-add}
use cosmoguard.Go.{
  Result, ok, panic, ◌>>=◌, index_out_of_range, Value, nil, bool, int, float64, str, slice, dict,
  Values, empty, item, Fields, end, field, get, get_or_nil, index, iface_eq, itoa,
}
use cosmoguard.Glob.{Globs}
use cosmoguard.Rules.JsonRpc.{
  JsonRpcRule, method_match, param_match, match_fields, match_values, match_params, match,
}

abbrev pub count : Values → ℕ
count empty = 0
count (item v vs) = suc (count vs)

abbrev pub append : Values → Values → Values
append empty ws = ws
append (item v vs) ws = item v (append vs ws)

index_end : (vs : Values) → index vs (count vs) ≡ panic index_out_of_range
unfolding index
index_end empty = refl
index_end (item v vs) = index_end vs

-- Values that `==` can compare.
abbrev pub IsScalar : Value → Type 0
IsScalar (slice vs) = ⊥
IsScalar (dict fs) = ⊥
IsScalar _ = Unit

abbrev pub ScalarValues : Values → Type 0
ScalarValues empty = Unit
ScalarValues (item v vs) = IsScalar v × ScalarValues vs

abbrev pub ScalarFields : Fields → Type 0
ScalarFields end = Unit
ScalarFields (field k v fs) = IsScalar v × ScalarFields fs

abbrev pub IsOk {ℓ} : {A : Type ℓ} → Result A → Type 0
IsOk (ok a) = Unit
IsOk (panic f) = ⊥

IsOk-value {ℓ} : {A : Type ℓ} (x : Result A) → IsOk x → (a : A) × (x ≡ ok a)
IsOk-value (ok a) h = (a, refl)
IsOk-value (panic f) h = absurd h

iface_eq-IsOk : (v w : Value) → IsScalar v → IsOk (iface_eq v w)
unfolding iface_eq
iface_eq-IsOk nil nil s = tt
iface_eq-IsOk (bool a) (bool b) s = tt
iface_eq-IsOk (int a) (int b) s = tt
iface_eq-IsOk (float64 a) (float64 b) s = tt
iface_eq-IsOk (str a) (str b) s = tt
iface_eq-IsOk (slice a) (slice b) s = absurd s
iface_eq-IsOk (dict a) (dict b) s = absurd s
iface_eq-IsOk _ _ s = tt

then_step :
    (m rest rest' post : Result Bool)
    → rest ≡ (rest' >>= λ same. if same then post else ok false)
    → (m >>= λ same. if same then rest else ok false) ≡ (
        (m >>= λ same. if same then rest' else ok false) >>= λ same.
        if same then post else ok false)
then_step (ok true) rest rest' post h = h
then_step (ok false) rest rest' post h = refl
then_step (panic f) rest rest' post h = refl

value_step :
    (m : Result Value) (f : Value → Result Bool) (rest rest' post : Result Bool)
    → rest ≡ (rest' >>= λ same. if same then post else ok false)
    → (m >>= λ w. f w >>= λ same. if same then rest else ok false) ≡ (
        (m >>= λ w. f w >>= λ same. if same then rest' else ok false) >>= λ same.
        if same then post else ok false)
value_step (ok w) f rest rest' post h = then_step (f w) rest rest' post h
value_step (panic e) f rest rest' post h = refl

module _ (lib : Globs) where
  match_values-append :
      (globs : List (String × lib.Glob)) (i : ℕ) (ps qs req : Values)
      → match_values lib globs i (append ps qs) req ≡ (
          match_values lib globs i ps req >>= λ same.
          if same then match_values lib globs (i + count ps) qs req else ok false)
  unfolding match_values
  match_values-append globs i empty qs req = rw (add-zero i)
  match_values-append globs i (item p ps) qs req =
      let move : i + suc (count ps) ≡ suc i + count ps = omega arith in
      rw move (
        value_step (index req i) (λ w. param_match lib (lookup (itoa i) globs) p (some w) w)
          (match_values lib globs (suc i) (append ps qs) req)
          (match_values lib globs (suc i) ps req) (match_values lib globs (suc i + count ps) qs req)
          (match_values-append globs (suc i) ps qs req))

  param_match-IsOk :
      (g : Option lib.Glob) (v : Value) (o : Option Value) (w : Value)
      → IsScalar v
      → IsOk (param_match lib g v o w)
  unfolding param_match
  param_match-IsOk (some g) v none w s = tt
  param_match-IsOk (some g) v (some (str t)) w s = tt
  param_match-IsOk (some g) v (some _) w s = tt
  param_match-IsOk none v o w s = iface_eq-IsOk v w s

  IsOk-step :
      (m : Result Bool) (rest : Result Bool)
      → IsOk m
      → IsOk rest
      → IsOk (m >>= λ same. if same then rest else ok false)
  IsOk-step (ok true) rest h k = k
  IsOk-step (ok false) rest h k = tt
  IsOk-step (panic f) rest h k = absurd h

  match_fields-IsOk :
      (globs : List (String × lib.Glob)) (ps req : Fields)
      → ScalarFields ps
      → IsOk (match_fields lib globs ps req)
  unfolding match_fields
  match_fields-IsOk globs end req s = tt
  match_fields-IsOk globs (field k v ps) req s =
      IsOk-step _ (match_fields lib globs ps req)
        (param_match-IsOk (lookup k globs) v (get k req) (get_or_nil k req) s.0)
        (match_fields-IsOk globs ps req s.1)

  index-IsOk : (vs : Values) (i : ℕ) → i < count vs → (w : Value) × (index vs i ≡ ok w)
  unfolding index
  index-IsOk empty i h = elim h [ ]
  index-IsOk (item v vs) zero h = (v, refl)
  index-IsOk (item v vs) (suc i) h = index-IsOk vs i (omega arith)

  match_values-IsOk :
      (globs : List (String × lib.Glob)) (i : ℕ) (ps req : Values)
      → ScalarValues ps
      → i + count ps ≤ count req
      → IsOk (match_values lib globs i ps req)
  unfolding match_values
  match_values-IsOk globs i empty req s n = tt
  match_values-IsOk globs i (item v ps) req s n =
      let (w, e) = index-IsOk req i (omega arith) in
      rw e (
        IsOk-step _ (match_values lib globs (suc i) ps req)
          (param_match-IsOk (lookup (itoa i) globs) v (some w) w s.0)
          (match_values-IsOk globs (suc i) ps req s.1 (omega arith)))

  short_values :
      (globs : List (String × lib.Glob)) (req pre rest : Values) (v : Value)
      → count pre ≡ count req
      → match_values lib globs 0 pre req ≡ ok true
      → match_values lib globs 0 (append pre (item v rest)) req ≡ panic index_out_of_range
  short_values globs req pre rest v n same =
      rw (match_values-append globs 0 pre (item v rest) req, same, zero-add (count pre), n)
        (unfold match_values in rw (index_end req))

  -- A rule whose parameters are a slice panics on a request with fewer parameters, once its method
  -- matches and so do the parameters that the request has.
  pub match_short_panics :
      (r : JsonRpcRule lib.Glob) (method : String) (req pre rest : Values) (v : Value)
      → r.params ≡ slice (append pre (item v rest))
      → r.params_slice ≡ true
      → method_match lib r.method_globs method (is_nil r.methods) ≡ true
      → count pre ≡ count req
      → match_values lib r.params_globs 0 pre req ≡ ok true
      → match lib r method (slice req) ≡ panic index_out_of_range
  unfolding match match_params
  match_short_panics r method req pre rest v p s m n same =
      let q : (r.params_map || r.params_slice) ≡ true = ground arith in
      rw (m, q)
        (ap (match_params lib r (slice req)) p
          ∙ rw s (short_values r.params_globs req pre rest v n same))

  -- What a rule has to be, against a request, for `Match` to be safe: it compares no maps or slices,
  -- and a slice of parameters is no longer than the request's.
  abbrev pub FitsParams : Value → Value → Type 0
  FitsParams (slice ps) (slice req) = ScalarValues ps × (count ps ≤ count req)
  FitsParams (dict ps) (dict req) = ScalarFields ps
  FitsParams _ _ = Unit

  match_params-IsOk :
      (r : JsonRpcRule lib.Glob) (req ps : Value)
      → FitsParams ps req
      → IsOk (match_params lib r req ps)
  unfolding match_params
  match_params-IsOk r (dict req) (dict ps) h = elim (Bool-cases r.params_map) [
    | inl t ↦ rw t (match_fields-IsOk r.params_globs ps req h)
    | inr f ↦ rw f tt
  ]
  match_params-IsOk r (dict req) _ h = elim (Bool-cases r.params_map) [
    | inl t ↦ rw t tt
    | inr f ↦ rw f tt
  ]
  match_params-IsOk r (slice req) (slice ps) h = elim (Bool-cases r.params_slice) [
    | inl t ↦ rw t (match_values-IsOk r.params_globs 0 ps req h.0 (omega arith))
    | inr f ↦ rw f tt
  ]
  match_params-IsOk r (slice req) _ h = elim (Bool-cases r.params_slice) [
    | inl t ↦ rw t tt
    | inr f ↦ rw f tt
  ]
  match_params-IsOk r _ _ h = tt

  guard_step :
      (b c : Bool) (x : Result Bool)
      → IsOk x
      → IsOk (if b then ok false else if c then ok true else x)
  guard_step true c x h = tt
  guard_step false true x h = tt
  guard_step false false x h = h

  -- A rule that compares no maps or slices, and has no more parameters than the request where both
  -- are slices, matches or does not: it does not panic.
  pub match_total :
      (r : JsonRpcRule lib.Glob) (method : String) (params : Value)
      → FitsParams r.params params
      → (hit : Bool) × (match lib r method params ≡ ok hit)
  unfolding match
  match_total r method params h =
      IsOk-value _ (guard_step _ _ _ (match_params-IsOk r params r.params h))
