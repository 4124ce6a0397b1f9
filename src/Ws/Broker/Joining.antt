-- ===== src/Ws/Broker/Joining.antt =====
-- A client that joins a subscription, ws_broker.go, and the notifications that it is sent.
use cosmoguard.Prelude.{
  ℕ, ◌≡◌, refl, ap, sym, ◌∙◌, ◌&&◌, ◌||◌, Bool, true, false, [], String, none, some, lookup, insert,
  lookup-insert, is_some, string_eq, nat_eq, beq_refl, ◌==◌, arith, eq_iff, Option-cases, inl, inr,
  subst,
}
use cosmoguard.Go.{Result, ok, >>=-eq-ok, ok-injective, Value}
use cosmoguard.JsonRpc.Msg.{JsonRpcMsg}
use cosmoguard.Ws.{Attempt, got, failed}
use cosmoguard.Ws.Utils.{get_subscription_param}
use cosmoguard.Ws.Subscriptions.{
  SubscriptionManager, client_subscribed, subscribe_client, or_nil_map, Clients,
  get_subscription_id, get_subscription_clients,
}
use cosmoguard.Ws.Subscriptions
use cosmoguard.Ws.Subscriptions.Laws.{
  IsValid, add_subscription-IsValid, subscribe_client-client_subscribed,
}
use cosmoguard.Ws.Pool
use cosmoguard.Ws.Pool.{UpstreamConnManager, UpstreamPool}
use cosmoguard.Ws.Pool.Maps.{Opened, Answered, subscribe-Answered}
use cosmoguard.Ws.Broker.{
  Broker, client_sub_id, join, open_subscription, subscribe_to, add_subscription,
}
use cosmoguard.Ws.Broker.Consistent.{
  IsConsistent, SameMaps-IsConsistent, SameIds, SameIds-IsConsistent,
}
use cosmoguard.Ws.Broker.Leaving.{Leaves}

-- The broker stays consistent, exactly one client is added to one subscription, and is notified
-- under the id that it asked for.
pub record Joins {Conn : Type 0} (b c : Broker Conn) (client : ℕ) (sub : Value) (id : String)
    : Type 0 where
  pub consistent : IsConsistent c.pool c.sm
  pub subscribed :
      (j : String) (k : ℕ)
      → client_subscribed j k c.sm ≡ ((id == j && client == k) || client_subscribed j k b.sm)
  pub notified : lookup client (get_subscription_clients id c.sm) ≡ some sub

abbrev pub Added : {Conn : Type 0} → Broker Conn → ℕ → Value → Broker Conn × Attempt String → Type 0
Added b client sub (c, got id) = Joins b c client sub id
Added b client sub (c, failed err) = Leaves b c (λ j k. false)

subscribe_client-SameIds :
    (id : String) (client : ℕ) (sub : Value) (s t : SubscriptionManager)
    → subscribe_client id client sub s ≡ ok t
    → SameIds s t × (lookup client (get_subscription_clients id t) ≡ some sub)
unfolding subscribe_client get_subscription_clients
subscribe_client-SameIds id client sub s t e =
    elim (Option-cases (lookup id s.client_subscriptions)) [
      | inl n ↦ absurd (let h = rw (n, subscribe_client) at e in cc)
      | inr (m, k) ↦
          subst
            (λ (x : SubscriptionManager).
              SameIds s x
              × (lookup client (or_nil_map (lookup id x.client_subscriptions)) ≡ some sub))
            (ok-injective (rw (k, subscribe_client) at e))
            (
              record { to_id = refl; to_param = refl },
              rw (lookup-insert id id (insert client sub m) s.client_subscriptions, beq_refl id)
                  (lookup-insert client client sub m ∙ rw (beq_refl client) refl),
            )
    ]

module _ (up : UpstreamConnManager) where
  join-Joins :
      (client : ℕ) (msg : JsonRpcMsg) (id : String) (b : Broker up.Conn)
      → IsConsistent b.pool b.sm
      → is_some (lookup id b.sm.id_to_param) ≡ true
      → (c : Broker up.Conn) × (join up client msg id b ≡ ok (c, got id))
        × Joins b c client (client_sub_id msg) id
  unfolding join
  join-Joins client msg id b c known =
      let (s, e, v, all) =
        subscribe_client-client_subscribed id client (client_sub_id msg) b.sm c.valid known in
      let (same, told) = subscribe_client-SameIds id client (client_sub_id msg) b.sm s e in
      (
        record b { sm = s },
        rw e refl,
        record { consistent = SameIds-IsConsistent same v c; subscribed = all; notified = told },
      )

  -- The id that upstream gives to a new subscription is not in use.
  abbrev pub GivesFresh : Broker up.Conn → Type 0
  GivesFresh b =
      (param id : String) (q : UpstreamPool up.Conn)
      → lookup param b.pool.subscription_id ≡ none
      → Pool.subscribe up param b.pool ≡ ok (q, got id)
      → lookup id b.sm.id_to_param ≡ none

  extended-IsConsistent :
      (param id : String) (p q : UpstreamPool up.Conn) (sm : SubscriptionManager)
      → IsConsistent p sm
      → Opened up param p q id
      → lookup param sm.param_to_id ≡ none
      → lookup id sm.id_to_param ≡ none
      → IsConsistent q (Subscriptions.add_subscription param id sm)
  unfolding Subscriptions.add_subscription
  extended-IsConsistent param id p q sm c o np ni = record {
    valid = add_subscription-IsValid param id sm c.valid np ni;
    ids = λ r. rw o.ids (
        ground (
          arith,
          c.ids r,
          lookup-insert param r id p.subscription_id,
          lookup-insert param r id sm.param_to_id,
        ));
    params = λ j. rw o.params (
        ground (
          arith,
          c.params j,
          lookup-insert id j param p.subscription_param,
          lookup-insert id j param sm.id_to_param,
        ));
    held = λ j. rw o.conns (
        ground (
          arith,
          c.held j,
          lookup-insert id j o.conn p.subscription_conn,
          lookup-insert id j param sm.id_to_param,
        ));
  }

  added-subscribed :
      (param id j : String) (k : ℕ) (sm : SubscriptionManager)
      → IsValid sm
      → lookup id sm.id_to_param ≡ none
      → client_subscribed j k (Subscriptions.add_subscription param id sm)
        ≡ client_subscribed j k sm
  unfolding Subscriptions.add_subscription client_subscribed lookup
  added-subscribed param id j k sm v ni =
      ground (arith, v.kept id, lookup-insert id j [] sm.client_subscriptions, eq_iff id j)

  open_subscription-Added :
      (client : ℕ) (msg : JsonRpcMsg) (param : String) (answer : Attempt String)
      (b : Broker up.Conn) (q : UpstreamPool up.Conn) (r : Broker up.Conn × Attempt String)
      → IsConsistent b.pool b.sm
      → lookup param b.sm.param_to_id ≡ none
      → ((id : String) → answer ≡ got id → lookup id b.sm.id_to_param ≡ none)
      → Answered up param b.pool (q, answer)
      → open_subscription up client msg param answer (record b { pool = q }) ≡ ok r
      → Added b client (client_sub_id msg) r
  unfolding open_subscription
  open_subscription-Added client msg param (failed err) b q r c np fresh o e =
      subst (Added b client (client_sub_id msg)) (ok-injective e)
        (record { consistent = SameMaps-IsConsistent o c; subscribed = λ j k. refl })
  open_subscription-Added client msg param (got id) b q r c np fresh o e =
      let ni = fresh id refl in
      let b' : Broker up.Conn = record {
        pool = q;
        sm = Subscriptions.add_subscription param id b.sm;
      } in
      let (d, joined, js) =
        join-Joins client msg id b' (extended-IsConsistent param id b.pool q b.sm c o np ni) (
          unfold Subscriptions.add_subscription in
          rw (lookup-insert id id param b.sm.id_to_param, beq_refl id) refl) in
      subst (Added b client (client_sub_id msg)) (ok-injective (sym joined ∙ e)) (record {
        consistent = js.consistent;
        subscribed = λ j k.
            js.subscribed j k
            ∙ ap (λ (x : Bool). (id == j && client == k) || x)
                (added-subscribed param id j k b.sm c.valid ni);
        notified = js.notified;
      })

  subscribe_to-Added :
      (client : ℕ) (msg : JsonRpcMsg) (param : String) (b : Broker up.Conn)
      (r : Broker up.Conn × Attempt String)
      → IsConsistent b.pool b.sm
      → GivesFresh b
      → subscribe_to up client msg param b ≡ ok r
      → Added b client (client_sub_id msg) r
  unfolding subscribe_to get_subscription_id
  subscribe_to-Added client msg param b r c fresh e =
      elim (Option-cases (lookup param b.sm.param_to_id)) [
        | inr (id, k) ↦
            let (d, joined, js) =
              join-Joins client msg id b c (rw ((c.valid.agree param id).0 k) refl) in
            subst (Added b client (client_sub_id msg))
              (ok-injective (sym joined ∙ rw (k, subscribe_to, get_subscription_id) at e)) js
        | inl n ↦
            let unknown = c.ids param ∙ n in
            let (a, asked, e1) =
              >>=-eq-ok (Pool.subscribe up param b.pool) _
                (rw (n, subscribe_to, get_subscription_id) at e) in
            open_subscription-Added client msg param a.1 b a.0 r c n
              (λ id h. fresh param id a.0 unknown (asked ∙ ap (λ x. ok (a.0, x)) h))
              (subscribe-Answered up param b.pool a unknown asked) e1
      ]

  -- A request to subscribe takes a consistent broker to a consistent broker, if upstream gives ids
  -- that are not in use. If it succeeds, exactly this client is added to exactly the subscription
  -- whose id is returned, to be notified under the id of its request, or under none where the
  -- request is `eth_subscribe`. If it fails, every client stays on its subscriptions.
  pub add_subscription-Added :
      (client : ℕ) (msg : JsonRpcMsg) (b : Broker up.Conn) (r : Broker up.Conn × Attempt String)
      → IsConsistent b.pool b.sm
      → GivesFresh b
      → add_subscription up client msg b ≡ ok r
      → Added b client (client_sub_id msg) r
  unfolding add_subscription
  add_subscription-Added client msg b r c fresh e =
      let (a, read, e1) = >>=-eq-ok (get_subscription_param msg) _ e in by_param a e1
    where
      by_param :
          (a : Attempt String)
          → ◌≡◌ {A = Result (Broker up.Conn × Attempt String)}
              (elim a [ failed err ↦ ok (b, failed err) | got p ↦ subscribe_to up client msg p b ])
              (ok r)
          → Added b client (client_sub_id msg) r
      by_param (failed err) h =
          subst (Added b client (client_sub_id msg)) (ok-injective h)
            (record { consistent = c; subscribed = λ j k. refl })
      by_param (got p) h = subscribe_to-Added client msg p b r c fresh h
