-- ===== src/Ws/Proxy/Laws.antt =====
-- The websocket proxy of ws_proxy.go against the policy.
use cosmoguard.Prelude.{
  ◌≡◌, refl, inl, inr, List, [], ◌∷◌, Bool, true, false, Bool-cases, string_eq, ◌==◌, Option,
}
use cosmoguard.Go.{Result, ok, panic, ◌>>=◌}
use cosmoguard.Rules
use cosmoguard.Rules.{RuleAction}
use cosmoguard.Rules.JsonRpc.{JsonRpcRule, match}
use cosmoguard.Policy.{Verdict, permit, View, verdict, default_verdict}
use cosmoguard.Policy
use cosmoguard.JsonRpc.Msg.{JsonRpcMsg}
use cosmoguard.Ws.Client.{WsError}
use cosmoguard.Ws.Proxy.{WsDeps, State, allow, refuse, handle_request}

module _ (d : WsDeps) where
  abbrev pub view_of : JsonRpcMsg → View (JsonRpcRule d.globs.Glob)
  view_of m = record {
    hits = λ r. match d.globs r m.method m.params;
    action = λ r. r.action;
    cache = λ r. r.cache;
  }

  abbrev pub enforce : JsonRpcMsg → State d → Verdict → Result (State d × Option WsError)
  enforce m s (permit c) = allow d m c s
  enforce m s Policy.refuse = ok (refuse d m s)

  hit_step :
      (r : JsonRpcRule d.globs.Glob) (rules : List (JsonRpcRule d.globs.Glob))
      (default : RuleAction) (m : JsonRpcMsg) (s : State d) (hit : Result Bool)
      → match d.globs r m.method m.params ≡ hit
      → handle_request d rules default m s ≡ (verdict (view_of m) default rules >>= enforce m s)
      → handle_request d (r ∷ rules) default m s
        ≡ (verdict (view_of m) default (r ∷ rules) >>= enforce m s)
  unfolding handle_request verdict
  hit_step r rules default m s (panic f) h ih = rw h
  hit_step r rules default m s (ok false) h ih = rw h ih
  hit_step r rules default m s (ok true) h ih = elim (Bool-cases (r.action == Rules.allow)) [
    | inl a ↦ rw (h, a)
    | inr na ↦ elim (Bool-cases (r.action == Rules.deny)) [
      | inl n ↦ rw (h, na, n)
      | inr nn ↦ rw (h, na, nn) ih
    ]
  ]

  -- A request over a websocket is handled as the verdict of the policy says, panics of a match
  -- included.
  pub handle_request-enforce :
      (rules : List (JsonRpcRule d.globs.Glob)) (default : RuleAction) (m : JsonRpcMsg)
      (s : State d)
      → handle_request d rules default m s ≡ (verdict (view_of m) default rules >>= enforce m s)
  unfolding handle_request verdict default_verdict
  handle_request-enforce [] default m s = elim (Bool-cases (default == Rules.allow)) [
    | inl a ↦ rw a
    | inr na ↦ rw na
  ]
  handle_request-enforce (r ∷ rules) default m s =
      hit_step r rules default m s (match d.globs r m.method m.params) refl
        (handle_request-enforce rules default m s)
