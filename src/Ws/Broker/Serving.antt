-- ===== src/Ws/Broker/Serving.antt =====
-- `HandleRequest` and `HandleSubscription` of ws_broker.go: what a request leaves of the agreement between
-- the broker and its pool.
use cosmoguard.Prelude.{
  ℕ, ◌≡◌, Bool, true, false, String, Option, inl, inr, subst, string_eq, ◌==◌, if◌then◌else◌, none,
  some,
}
use cosmoguard.Go.{Result, ok, ◌>>=◌, >>=-eq-ok, ok-injective, Value, bool, str}
use cosmoguard.JsonRpc.Msg.{JsonRpcMsg, empty_result, with_result}
use cosmoguard.Ws.{Attempt, got, failed}
use cosmoguard.Ws.Pool
use cosmoguard.Ws.Pool.{UpstreamConnManager}
use cosmoguard.Ws.Pool.Maps.{make_request-SameMaps}
use cosmoguard.Ws.Client.{JsonRpcWsClient}
use cosmoguard.Ws.Broker
use cosmoguard.Ws.Broker.{
  Broker, add_subscription, remove_all_subscriptions, on_client_disconnect, dispatch, reply_id,
  reply_done, handle_request, handle_subscription,
}
use cosmoguard.Ws.Broker.Consistent.{IsConsistent, SameMaps-IsConsistent}
use cosmoguard.Ws.Broker.Joining.{Added, GivesFresh, add_subscription-Added}
use cosmoguard.Ws.Broker.Leaving.{remove_subscription-Unsubscribed, remove_all_subscriptions-Leaves}

-- The broker and its pool agree.
abbrev pub Agree : {Conn : Type 0} → Broker Conn → Type 0
Agree b = IsConsistent b.pool b.sm

module _ (up : UpstreamConnManager) where
  added_lem :
      (b : Broker up.Conn) (client : ℕ) (sub : Value) (r : Broker up.Conn × Attempt String)
      → Added b client sub r
      → Agree r.0
  added_lem b client sub (c, got id) a = a.consistent
  added_lem b client sub (c, failed err) a = a.consistent

  remove_all_lem :
      (client : ℕ) (b : Broker up.Conn) (r : Broker up.Conn × Option String)
      → Agree b
      → remove_all_subscriptions up client b ≡ ok r
      → Agree r.0
  remove_all_lem client b r c e = elim (remove_all_subscriptions-Leaves up client b r c e) [
    | inl (fine, l) ↦ l.consistent
    | inr (err, h, k) ↦ k
  ]

  remove_lem :
      (client : ℕ) (msg : JsonRpcMsg) (b : Broker up.Conn) (r : Broker up.Conn × Option String)
      → Agree b
      → Broker.remove_subscription up client msg b ≡ ok r
      → Agree r.0
  remove_lem client msg b r c e = elim (remove_subscription-Unsubscribed up client msg b r c e) [
    | inl (err, h) ↦ rw h c
    | inr (id, was, l) ↦ l.consistent
  ]

  pub on_client_disconnect_lem :
      (client : ℕ) (b b' : Broker up.Conn)
      → Agree b
      → on_client_disconnect up client b ≡ ok b'
      → Agree b'
  unfolding on_client_disconnect
  on_client_disconnect_lem client b b' c e =
      let (x, e1, e2) = >>=-eq-ok (remove_all_subscriptions up client b) _ e in
      subst (λ (z : Broker up.Conn). Agree z) (ok-injective e2) (remove_all_lem client b x c e1)

  dispatch_lem :
      (client : ℕ) (msg : JsonRpcMsg) (b : Broker up.Conn) (r : Broker up.Conn × Attempt JsonRpcMsg)
      → Agree b
      → GivesFresh up b
      → dispatch up client msg b ≡ ok r
      → Agree r.0
  unfolding dispatch
  dispatch_lem client msg b r c fresh e =
      by_method (msg.method == "subscribe") (msg.method == "unsubscribe")
        (msg.method == "unsubscribe_all") (msg.method == "eth_subscribe")
        (msg.method == "eth_unsubscribe") e
    where
      Answer : Type 0
      Answer = Result (Broker up.Conn × Attempt JsonRpcMsg)

      to_subscribe : (Attempt String → Attempt JsonRpcMsg) → Answer
      to_subscribe answer = add_subscription up client msg b >>= λ x. ok (x.0, answer x.1)

      to_unsubscribe : (Option String → Attempt JsonRpcMsg) → Answer
      to_unsubscribe answer =
          Broker.remove_subscription up client msg b >>= λ x. ok (x.0, answer x.1)

      to_leave : (Option String → Attempt JsonRpcMsg) → Answer
      to_leave answer = remove_all_subscriptions up client b >>= λ x. ok (x.0, answer x.1)

      ends :
          (x : Broker up.Conn) (a : Attempt JsonRpcMsg)
          → ◌≡◌ {A = Answer} (ok (x, a)) (ok r)
          → Agree x
          → Agree r.0
      ends x a h k =
          subst (λ (z : Broker up.Conn × Attempt JsonRpcMsg). Agree z.0) (ok-injective h) k

      by_adding :
          (answer : Attempt String → Attempt JsonRpcMsg) → to_subscribe answer ≡ ok r → Agree r.0
      by_adding answer h =
          let (x, e1, e2) = >>=-eq-ok (add_subscription up client msg b) _ h in
          ends x.0 (answer x.1) e2
            (added_lem b client _ x (add_subscription-Added up client msg b x c fresh e1))

      by_removing :
          (answer : Option String → Attempt JsonRpcMsg) → to_unsubscribe answer ≡ ok r → Agree r.0
      by_removing answer h =
          let (x, e1, e2) = >>=-eq-ok (Broker.remove_subscription up client msg b) _ h in
          ends x.0 (answer x.1) e2 (remove_lem client msg b x c e1)

      by_leaving :
          (answer : Option String → Attempt JsonRpcMsg) → to_leave answer ≡ ok r → Agree r.0
      by_leaving answer h =
          let (x, e1, e2) = >>=-eq-ok (remove_all_subscriptions up client b) _ h in
          ends x.0 (answer x.1) e2 (remove_all_lem client b x c e1)

      by_method :
          (m1 m2 m3 m4 m5 : Bool)
          → (if m1
              then to_subscribe (λ id. got (reply_id up msg (λ _. empty_result msg) id))
              else if m2
              then to_unsubscribe (λ err. got (reply_done up msg (empty_result msg) err))
              else if m3
              then to_leave (λ err. elim err [ none ↦ got (empty_result msg) | some x ↦ failed x ])
              else if m4
              then to_subscribe (λ id. got (reply_id up msg (λ i. with_result msg (str i)) id))
              else if m5
              then to_unsubscribe (λ err. got (reply_done up msg (with_result msg (bool true)) err))
              else ok (b, failed "unsupported method on subscriptions"))
            ≡ ok r
          → Agree r.0
      by_method true m2 m3 m4 m5 h = by_adding _ h
      by_method false true m3 m4 m5 h = by_removing _ h
      by_method false false true m4 m5 h = by_leaving _ h
      by_method false false false true m5 h = by_adding _ h
      by_method false false false false true h = by_removing _ h
      by_method false false false false false h = ends b _ h c

  pub handle_subscription_lem :
      {Conn : Type 0} (client : ℕ) (msg : JsonRpcMsg) (k : JsonRpcWsClient Conn)
      (b : Broker up.Conn) (r : JsonRpcWsClient Conn × Broker up.Conn × Attempt JsonRpcMsg)
      → Agree b
      → GivesFresh up b
      → handle_subscription up client msg k b ≡ ok r
      → Agree r.1
  unfolding handle_subscription
  handle_subscription_lem {Conn} client msg k b r c fresh e =
      let (x, e1, e2) = >>=-eq-ok (dispatch up client msg b) _ e in
      subst (λ (z : JsonRpcWsClient Conn × Broker up.Conn × Attempt JsonRpcMsg). Agree z.1)
        (ok-injective e2) (dispatch_lem client msg b x c fresh e1)

  pub handle_request_lem :
      (msg : JsonRpcMsg) (b : Broker up.Conn) (r : Broker up.Conn × Attempt JsonRpcMsg)
      → Agree b
      → handle_request up msg b ≡ ok r
      → Agree r.0
  unfolding handle_request
  handle_request_lem msg b r c e =
      let (x, e1, e2) = >>=-eq-ok (Pool.make_request up msg b.pool) _ e in
      subst (λ (z : Broker up.Conn × Attempt JsonRpcMsg). Agree z.0) (ok-injective e2)
        (SameMaps-IsConsistent (make_request-SameMaps up msg b.pool e1) c)
