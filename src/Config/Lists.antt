-- ===== src/Config/Lists.antt =====
-- The seven lists of rules of a configuration: config.go.
use cosmoguard.Prelude.{
  ℕ, ◌≡◌, sym, ap, ◌∙◌, inl, inr, List, [], ◌∷◌, is_nil, not, Bool-cases, subst, nat_eq,
}
use cosmoguard.Go.{ok, >>=-eq-ok, ok-injective, Value}
use cosmoguard.Glob.{Globs, compile_all}
use cosmoguard.Rules.{RuleAction}
use cosmoguard.Rules.Http
use cosmoguard.Rules.Http.{HttpRule}
use cosmoguard.Rules.Grpc
use cosmoguard.Rules.Grpc.{GrpcRule}
use cosmoguard.Rules.JsonRpc
use cosmoguard.Rules.JsonRpc.{JsonRpcRule}
use cosmoguard.Policy.{View, verdict}
use cosmoguard.Config.{
  Config, ConfigDeps, prepare_http, prepare_grpc, prepare_json_rpc, prepare_all,
}
use cosmoguard.Config.Priority.{Sorts, DecidesLowest, prepare-DecidesLowest}

module _ (lib : Globs) where
  pub http_keeps :
      (r r' : HttpRule lib.Glob) → Http.compile lib r ≡ ok r' → r'.priority ≡ r.priority
  unfolding Http.compile
  http_keeps r r' e = elim (Bool-cases (not (is_nil r.paths))) [
    | inr n ↦ ap (λ x. x.priority) (sym (ok-injective (rw (n, Http.compile) at e)))
    | inl n ↦
        let (gs, e1, e2) =
          >>=-eq-ok (compile_all lib ("/" ∷ []) r.paths) _ (rw (n, Http.compile) at e) in
        ap (λ x. x.priority) (sym (ok-injective e2))
  ]

  grpc_keeps : (r r' : GrpcRule lib.Glob) → Grpc.compile lib r ≡ ok r' → r'.priority ≡ r.priority
  unfolding Grpc.compile
  grpc_keeps r r' e = elim (Bool-cases (not (is_nil r.methods))) [
    | inr n ↦ ap (λ x. x.priority) (sym (ok-injective (rw (n, Grpc.compile) at e)))
    | inl n ↦
        let (gs, e1, e2) =
          >>=-eq-ok (compile_all lib ("/" ∷ []) r.methods) _ (rw (n, Grpc.compile) at e) in
        ap (λ x. x.priority) (sym (ok-injective e2))
  ]

  methods_keep :
      (r r' : JsonRpcRule lib.Glob)
      → JsonRpc.compile_methods lib r ≡ ok r'
      → r'.priority ≡ r.priority
  unfolding JsonRpc.compile_methods
  methods_keep r r' e = elim (Bool-cases (not (is_nil r.methods))) [
    | inr n ↦ ap (λ x. x.priority) (sym (ok-injective (rw (n, JsonRpc.compile_methods) at e)))
    | inl n ↦
        let (gs, e1, e2) =
          >>=-eq-ok (compile_all lib [] r.methods) _ (rw (n, JsonRpc.compile_methods) at e) in
        ap (λ x. x.priority) (sym (ok-injective e2))
  ]

  params_keep :
      (v : Value) (r r' : JsonRpcRule lib.Glob)
      → JsonRpc.compile_params lib v r ≡ ok r'
      → r'.priority ≡ r.priority
  unfolding JsonRpc.compile_params
  params_keep (Value.dict ps) r r' e =
      let (gs, e1, e2) = >>=-eq-ok (JsonRpc.compile_fields lib ps r.params_globs) _ e in
      ap (λ x. x.priority) (sym (ok-injective e2))
  params_keep (Value.slice ps) r r' e =
      let (gs, e1, e2) = >>=-eq-ok (JsonRpc.compile_values lib 0 ps r.params_globs) _ e in
      ap (λ x. x.priority) (sym (ok-injective e2))
  params_keep v r r' e = ap (λ x. x.priority) (sym (ok-injective e))

  json_rpc_keeps :
      (r r' : JsonRpcRule lib.Glob) → JsonRpc.compile lib r ≡ ok r' → r'.priority ≡ r.priority
  unfolding JsonRpc.compile
  json_rpc_keeps r r' e =
      let (m, e1, e2) = >>=-eq-ok (JsonRpc.compile_methods lib r) _ e in
      params_keep m.params m r' e2 ∙ methods_keep r m e1

-- The outcome of the policy on a list of rules as it stands, unless a match panics: one with the
-- lowest priority of the rules that act decides, or the default action.
abbrev pub Prioritised : {R : Type 0} → (R → ℕ) → List R → Type 0
Prioritised {R} key rs =
    (view : View R) (default : RuleAction)
    → DecidesLowest view key default rs (verdict view default rs)

module _ (d : ConfigDeps) (sorts : Sorts d.sort) where
  http_Prioritised :
      (rules rs : List (HttpRule d.globs.Glob))
      → prepare_http d rules ≡ ok rs
      → Prioritised (λ r. r.priority) rs
  unfolding prepare_http
  http_Prioritised rules rs p view default =
      prepare-DecidesLowest d sorts view (λ r. r.priority) (Http.compile d.globs)
        (http_keeps d.globs) default rules rs p

  grpc_Prioritised :
      (rules rs : List (GrpcRule d.globs.Glob))
      → prepare_grpc d rules ≡ ok rs
      → Prioritised (λ r. r.priority) rs
  unfolding prepare_grpc
  grpc_Prioritised rules rs p view default =
      prepare-DecidesLowest d sorts view (λ r. r.priority) (Grpc.compile d.globs)
        (grpc_keeps d.globs) default rules rs p

  json_rpc_Prioritised :
      (rules rs : List (JsonRpcRule d.globs.Glob))
      → prepare_json_rpc d rules ≡ ok rs
      → Prioritised (λ r. r.priority) rs
  unfolding prepare_json_rpc
  json_rpc_Prioritised rules rs p view default =
      prepare-DecidesLowest d sorts view (λ r. r.priority) (JsonRpc.compile d.globs)
        (json_rpc_keeps d.globs) default rules rs p

  -- Each of the seven lists of a configuration is prepared so that, whatever the order in the file,
  -- one with the lowest priority of the rules that act on a request decides over it, and the default
  -- action where none acts, unless a match panics. Priorities are those of the file. `sort.Slice` is
  -- taken to sort.
  pub prepare_all-Prioritised :
      (c out : Config d.globs.Glob)
      → prepare_all d c ≡ ok out
      → Prioritised (λ r. r.priority) out.lcd.rules
        × Prioritised (λ r. r.priority) out.grpc.rules
        × Prioritised (λ r. r.priority) out.rpc.rules
        × Prioritised (λ r. r.priority) out.rpc.json_rpc.rules
        × Prioritised (λ r. r.priority) out.evm.rpc.rules
        × Prioritised (λ r. r.priority) out.evm.rpc.http_rules
        × Prioritised (λ r. r.priority) out.evm.ws.rules
  unfolding prepare_all
  prepare_all-Prioritised c out e =
      let (lcd, p1, e1) = >>=-eq-ok (prepare_http d c.lcd.rules) _ e in
      let (grpc, p2, e2) = >>=-eq-ok (prepare_grpc d c.grpc.rules) _ e1 in
      let (rpc, p3, e3) = >>=-eq-ok (prepare_http d c.rpc.rules) _ e2 in
      let (json_rpc, p4, e4) = >>=-eq-ok (prepare_json_rpc d c.rpc.json_rpc.rules) _ e3 in
      let (evm, p5, e5) = >>=-eq-ok (prepare_json_rpc d c.evm.rpc.rules) _ e4 in
      let (evm_http, p6, e6) = >>=-eq-ok (prepare_http d c.evm.rpc.http_rules) _ e5 in
      let (evm_ws, p7, e7) = >>=-eq-ok (prepare_json_rpc d c.evm.ws.rules) _ e6 in
      subst
        (λ (x : Config d.globs.Glob).
          Prioritised (λ r. r.priority) x.lcd.rules
          × Prioritised (λ r. r.priority) x.grpc.rules
          × Prioritised (λ r. r.priority) x.rpc.rules
          × Prioritised (λ r. r.priority) x.rpc.json_rpc.rules
          × Prioritised (λ r. r.priority) x.evm.rpc.rules
          × Prioritised (λ r. r.priority) x.evm.rpc.http_rules
          × Prioritised (λ r. r.priority) x.evm.ws.rules)
        (ok-injective e7)
        (
          http_Prioritised c.lcd.rules lcd p1,
          grpc_Prioritised c.grpc.rules grpc p2,
          http_Prioritised c.rpc.rules rpc p3,
          json_rpc_Prioritised c.rpc.json_rpc.rules json_rpc p4,
          json_rpc_Prioritised c.evm.rpc.rules evm p5,
          http_Prioritised c.evm.rpc.http_rules evm_http p6,
          json_rpc_Prioritised c.evm.ws.rules evm_ws p7,
        )
