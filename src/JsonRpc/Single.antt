-- ===== src/JsonRpc/Single.antt =====
-- The handler of single JSON-RPC requests, jsonrpc_handler.go, against the policy.
use cosmoguard.Prelude.{
  ◌≡◌, refl, inl, inr, List, [], ◌∷◌, Bool, true, false, Bool-cases, string_eq, ◌==◌,
}
use cosmoguard.Go.{Result, ok, panic, ◌>>=◌}
use cosmoguard.Rules
use cosmoguard.Rules.{RuleAction}
use cosmoguard.Rules.JsonRpc.{JsonRpcRule, match}
use cosmoguard.Policy.{Verdict, permit, refuse, View, verdict, default_verdict}
use cosmoguard.HttpProxy.{HttpRequest, Exchange}
use cosmoguard.JsonRpc.Msg.{JsonRpcMsg}
use cosmoguard.JsonRpc.Handler.{RpcDeps, allow_single, refuse_single, handle_http_single}

module _ (d : RpcDeps) where
  abbrev pub view_of : JsonRpcMsg → View (JsonRpcRule d.globs.Glob)
  view_of m = record {
    hits = λ r. match d.globs r m.method m.params;
    action = λ r. r.action;
    cache = λ r. r.cache;
  }

  abbrev pub enforce :
      JsonRpcMsg → HttpRequest → Exchange d.cache.State → Verdict → Result (Exchange d.cache.State)
  enforce m req e (permit c) = allow_single d req m c e
  enforce m req e refuse = ok (refuse_single d m e)

  hit_step :
      (r : JsonRpcRule d.globs.Glob) (rules : List (JsonRpcRule d.globs.Glob))
      (default : RuleAction) (m : JsonRpcMsg) (req : HttpRequest) (e : Exchange d.cache.State)
      (hit : Result Bool)
      → match d.globs r m.method m.params ≡ hit
      → handle_http_single d rules default m req e
        ≡ (verdict (view_of m) default rules >>= enforce m req e)
      → handle_http_single d (r ∷ rules) default m req e
        ≡ (verdict (view_of m) default (r ∷ rules) >>= enforce m req e)
  unfolding handle_http_single verdict
  hit_step r rules default m req e (panic f) h ih = rw h
  hit_step r rules default m req e (ok false) h ih = rw h ih
  hit_step r rules default m req e (ok true) h ih = elim (Bool-cases (r.action == Rules.allow)) [
    | inl a ↦ rw (h, a)
    | inr na ↦ elim (Bool-cases (r.action == Rules.deny)) [
      | inl n ↦ rw (h, na, n)
      | inr nn ↦ rw (h, na, nn) ih
    ]
  ]

  -- A single request is handled as the verdict of the policy says, panics of a match included.
  pub handle_http_single-enforce :
      (rules : List (JsonRpcRule d.globs.Glob)) (default : RuleAction) (m : JsonRpcMsg)
      (req : HttpRequest) (e : Exchange d.cache.State)
      → handle_http_single d rules default m req e
        ≡ (verdict (view_of m) default rules >>= enforce m req e)
  unfolding handle_http_single verdict default_verdict allow_single
  handle_http_single-enforce [] default m req e = elim (Bool-cases (default == Rules.allow)) [
    | inl a ↦ rw a
    | inr na ↦ rw na
  ]
  handle_http_single-enforce (r ∷ rules) default m req e =
      hit_step r rules default m req e (match d.globs r m.method m.params) refl
        (handle_http_single-enforce rules default m req e)
