-- ===== src/Ws/Proxy/Agreeing.antt =====
-- What a request of a websocket client, ws_proxy.go, leaves of the agreement between the broker and its
-- pool.
use cosmoguard.Prelude.{
  ℕ, ◌≡◌, inl, inr, List, ◌∷◌, [], Bool, true, false, Option, none, some, subst, Bool-cases,
  string_eq, ◌==◌, if◌then◌else◌,
}
use cosmoguard.Go.{Result, ok, ok-injective, >>=-eq-ok}
use cosmoguard.Cache.{Error, found}
use cosmoguard.Cache
use cosmoguard.Rules
use cosmoguard.Rules.{RuleAction, RuleCache}
use cosmoguard.Rules.JsonRpc.{JsonRpcRule, match}
use cosmoguard.JsonRpc.Msg.{JsonRpcMsg, hash}
use cosmoguard.JsonRpc.Responses.{is_storable}
use cosmoguard.Ws.Utils.{has_subscription_method}
use cosmoguard.Ws.Broker
use cosmoguard.Ws.Broker.{Broker, handle_subscription, on_client_disconnect}
use cosmoguard.Ws.Broker.Joining.{GivesFresh}
use cosmoguard.Ws.Broker.Serving.{Agree, handle_subscription_lem, handle_request_lem}
use cosmoguard.Ws.Client.{WsError}
use cosmoguard.Ws.Proxy.{
  WsDeps, State, Outcome, value, error, send, ask_broker, reply, forward, store, answer_cached,
  allow, refuse, handle_request,
}

module _ (d : WsDeps) where
  ask_lem :
      (req : JsonRpcMsg) (s : State d) (r : State d × Outcome JsonRpcMsg)
      → Agree s.broker
      → GivesFresh d.up s.broker
      → ask_broker d req s ≡ ok r
      → Agree r.0.broker
  unfolding ask_broker
  ask_lem req s r c fresh e = elim (Bool-cases (has_subscription_method req)) [
    | inl sub ↦
        let (x, e1, e2) =
          >>=-eq-ok (handle_subscription d.up s.addr req s.client s.broker) _
            (rw (sub, ask_broker) at e) in
        subst (λ (z : State d × Outcome JsonRpcMsg). Agree z.0.broker) (ok-injective e2)
          (handle_subscription_lem d.up s.addr req s.client s.broker x c fresh e1)
    | inr plain ↦
        let (x, e1, e2) =
          >>=-eq-ok (Broker.handle_request d.up req s.broker) _ (rw (plain, ask_broker) at e) in
        subst (λ (z : State d × Outcome JsonRpcMsg). Agree z.0.broker) (ok-injective e2)
          (handle_request_lem d.up req s.broker x c e1)
  ]

  reply_lem : (o : Outcome JsonRpcMsg) (s : State d) → Agree s.broker → Agree (reply d o s).0.broker
  unfolding reply send
  reply_lem (error err) s c = c
  reply_lem (value res) s c = c

  forward_lem :
      (req : JsonRpcMsg) (s : State d) (r : State d × Outcome JsonRpcMsg)
      → Agree s.broker
      → GivesFresh d.up s.broker
      → forward d req s ≡ ok r
      → Agree r.0.broker
  unfolding forward
  forward_lem req s r c fresh e =
      let (x, e1, e2) = >>=-eq-ok (ask_broker d req s) _ e in
      subst (λ (z : State d × Outcome JsonRpcMsg). Agree z.0.broker) (ok-injective e2)
        (reply_lem x.1 x.0 (ask_lem req s x c fresh e1))

  store_lem :
      (key : ℕ) (cache : RuleCache) (o : Outcome JsonRpcMsg) (s : State d)
      → Agree s.broker
      → Agree (store d key cache o s).0.broker
  unfolding store
  store_lem key cache (error err) s c = c
  store_lem key cache (value res) s c = elim (Bool-cases (is_storable cache res)) [
    | inl is_so ↦ rw (is_so, store) c
    | inr not_so ↦ rw (not_so, store) c
  ]

  answer_lem :
      (req : JsonRpcMsg) (f : Cache.Found JsonRpcMsg) (s : State d)
      → Agree s.broker
      → Agree (answer_cached d req f s).0.broker
  unfolding answer_cached send
  answer_lem req (Cache.failed err) s c = c
  answer_lem req (found res) s c = c

  allow_lem :
      (req : JsonRpcMsg) (cache : Option RuleCache) (s : State d) (r : State d × Option WsError)
      → Agree s.broker
      → GivesFresh d.up s.broker
      → allow d req cache s ≡ ok r
      → Agree r.0.broker
  unfolding allow
  allow_lem req none s r c fresh e =
      let (x, e1, e2) = >>=-eq-ok (forward d req s) _ e in
      subst (λ (z : State d × Option WsError). Agree z.0.broker) (ok-injective e2)
        (forward_lem req s x c fresh e1)
  allow_lem req (some cache) s r c fresh e =
      let key = hash d.codec req in
      let looked = d.cache.has key s.cache in
      let s' : State d = record s { cache = looked.0 } in
      elim (Bool-cases looked.1) [
        | inl hit ↦
            subst (λ (z : State d × Option WsError). Agree z.0.broker)
              (ok-injective (rw (hit, allow) at e))
              (answer_lem req (d.cache.get key looked.0).1
                (record s' { cache = (d.cache.get key looked.0).0 }) c)
        | inr miss ↦
            let (x, e1, e2) = >>=-eq-ok (forward d req s') _ (rw (miss, allow) at e) in
            subst (λ (z : State d × Option WsError). Agree z.0.broker) (ok-injective e2)
              (store_lem key cache x.1 x.0 (forward_lem req s' x c fresh e1))
      ]

  pub serve_lem :
      (rules : List (JsonRpcRule d.globs.Glob)) (default : RuleAction) (req : JsonRpcMsg)
      (s : State d) (r : State d × Option WsError)
      → Agree s.broker
      → GivesFresh d.up s.broker
      → handle_request d rules default req s ≡ ok r
      → Agree r.0.broker
  unfolding handle_request refuse send
  serve_lem [] default req s r c fresh e = elim (Bool-cases (default == Rules.allow)) [
    | inl is_so ↦ allow_lem req none s r c fresh (rw (is_so, handle_request) at e)
    | inr not_so ↦
        subst (λ (z : State d × Option WsError). Agree z.0.broker)
          (ok-injective (rw (not_so, handle_request) at e)) c
  ]
  serve_lem (rule ∷ rules) default req s r c fresh e =
      let (hit, e1, e2) = >>=-eq-ok (match d.globs rule req.method req.params) _ e in
      by_hit hit (serve_lem rules default req s r c fresh) e2
    where
      rest : Result (State d × Option WsError)
      rest = handle_request d rules default req s

      decided : Result (State d × Option WsError)
      decided =
          if rule.action == Rules.allow
          then allow d req rule.cache s
          else if rule.action == Rules.deny
          then ok (refuse d req s)
          else rest

      by_hit :
          (hit : Bool)
          → (rest ≡ ok r → Agree r.0.broker)
          → (if hit then decided else rest) ≡ ok r
          → Agree r.0.broker
      by_hit false later h = later h
      by_hit true later h = elim (Bool-cases (rule.action == Rules.allow)) [
        | inl is_so ↦ allow_lem req rule.cache s r c fresh (rw is_so at h)
        | inr not_so ↦ elim (Bool-cases (rule.action == Rules.deny)) [
          | inl deny ↦
              subst (λ (z : State d × Option WsError). Agree z.0.broker)
                (ok-injective (rw (not_so, deny) at h)) c
          | inr other_action ↦ later (rw (not_so, other_action) at h)
        ]
      ]
