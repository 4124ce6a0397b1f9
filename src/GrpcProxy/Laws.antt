-- ===== src/GrpcProxy/Laws.antt =====
-- The gRPC proxy of grpc_proxy.go against the policy, but for the reflection service.
use cosmoguard.Prelude.{
  ◌≡◌, refl, ap, ◌⊎◌, inl, inr, List, [], ◌∷◌, true, false, String, none, Bool-cases, string_eq,
  ◌==◌,
}
use text.Mathlib.Text.{starts_with}
use cosmoguard.Go.{ok, ok-injective}
use cosmoguard.Glob.{Globs}
use cosmoguard.Rules.{RuleAction, allow, deny}
use cosmoguard.Rules.Grpc.{GrpcRule, match}
use cosmoguard.Policy.{Verdict, permit, refuse, View, verdict, default_verdict}
use cosmoguard.Policy.Laws.{Outcome, verdict_cases, verdict_total}
use cosmoguard.GrpcProxy.{
  GrpcProxy, Routed, forwarded, forwarded_with_metadata, unauthorized, handle_rules, handle,
}

module _ (lib : Globs) where
  abbrev pub view_of : String → View (GrpcRule lib.Glob)
  view_of method = record {
    hits = λ r. ok (match lib r method);
    action = λ r. r.action;
    cache = λ r. none;
  }

  abbrev pub enforce : Verdict → Routed
  enforce (permit c) = forwarded
  enforce refuse = unauthorized

  enforce_step :
      (r : GrpcRule lib.Glob) (rules : List (GrpcRule lib.Glob)) (default : RuleAction)
      (method : String) (v : Verdict)
      → (verdict (view_of method) default rules ≡ ok v
          → handle_rules lib rules default method ≡ enforce v)
      → verdict (view_of method) default (r ∷ rules) ≡ ok v
      → handle_rules lib (r ∷ rules) default method ≡ enforce v
  unfolding handle_rules verdict
  enforce_step r rules default method v ih h = elim (Bool-cases (match lib r method)) [
    | inl m ↦ elim (Bool-cases (r.action == allow)) [
      | inl a ↦ rw (m, a) (ap enforce (ok-injective (rw (m, a) at h)))
      | inr na ↦ elim (Bool-cases (r.action == deny)) [
        | inl n ↦ rw (m, na, n) (ap enforce (ok-injective (rw (m, na, n) at h)))
        | inr nn ↦ rw (m, na, nn) (ih (rw (m, na, nn) at h))
      ]
    ]
    | inr n ↦ rw n (ih (rw n at h))
  ]

  handle_rules-enforce :
      (rules : List (GrpcRule lib.Glob)) (default : RuleAction) (method : String) (v : Verdict)
      → verdict (view_of method) default rules ≡ ok v
      → handle_rules lib rules default method ≡ enforce v
  unfolding handle_rules verdict default_verdict
  handle_rules-enforce [] default method v h = elim (Bool-cases (default == allow)) [
    | inl a ↦ rw a (ap enforce (ok-injective (rw a at h)))
    | inr na ↦ rw na (ap enforce (ok-injective (rw na at h)))
  ]
  handle_rules-enforce (r ∷ rules) default method v h =
      enforce_step r rules default method v (handle_rules-enforce rules default method v) h

  -- A call of the reflection service is always forwarded, with its metadata. Any other call is
  -- forwarded or refused as the first rule that decides says, or else the default action.
  pub handle-Outcome :
      (p : GrpcProxy lib.Glob) (method : String)
      → ((starts_with method "/grpc.reflection" ≡ true)
          × (handle lib p method ≡ forwarded_with_metadata))
        ⊎ ((starts_with method "/grpc.reflection" ≡ false)
            × ((v : Verdict) × Outcome (view_of method) p.default_action p.rules v
                × (handle lib p method ≡ enforce v)))
  unfolding handle
  handle-Outcome p method = elim (Bool-cases (starts_with method "/grpc.reflection")) [
    | inl s ↦ inl (s, rw s)
    | inr n ↦
        let (v, h) = verdict_total (view_of method) p.default_action (λ r. (_, refl)) p.rules in
        inr (
          n,
          (
            v,
            verdict_cases (view_of method) p.default_action p.rules v h,
            rw n (handle_rules-enforce p.rules p.default_action method v h),
          ),
        )
  ]
