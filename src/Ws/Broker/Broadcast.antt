-- ===== src/Ws/Broker/Broadcast.antt =====
-- Who is sent a notification of upstream: ws_broker.go.
use cosmoguard.Prelude.{
  ℕ, ◌≡◌, refl, List, [], ◌∷◌, String, some, lookup, is_some, nat_eq, nat_beq_iff, beq_refl,
  Bool-cases, Any, All, ◌==◌, arith, inl, inr, true,
}
use cosmoguard.Go.{ok, Value, str}
use cosmoguard.JsonRpc.Msg.{JsonRpcMsg, clone_with_id}
use cosmoguard.Ws.{got}
use cosmoguard.Ws.Subscriptions.{client_subscribed, get_subscription_clients, Clients}
use cosmoguard.Ws.Pool.{UpstreamConnManager}
use cosmoguard.Ws.Broker.{
  Broker, Delivery, deliveries, client_sub_id, add_subscription, on_subscription_message,
}
use cosmoguard.Ws.Broker.Consistent.{IsConsistent}
use cosmoguard.Ws.Broker.Joining.{GivesFresh, add_subscription-Added}

sent :
    (note : JsonRpcMsg) (c : ℕ) (sub : Value) (m : Clients)
    → lookup c m ≡ some sub
    → Any (λ d. d ≡ record { client = c; msg = clone_with_id note sub }) (deliveries note m)
unfolding lookup deliveries
sent note c sub [] h = cc
sent note c sub ((k, v) ∷ m) h = elim (Bool-cases (k == c)) [
  | inl e ↦ inl (ground (arith, nat_beq_iff k c))
  | inr n ↦ inr (sent note c sub m (rw n at h))
]

only_listed :
    (note : JsonRpcMsg) (all m : Clients)
    → ((k : ℕ) → is_some (lookup k m) ≡ true → is_some (lookup k all) ≡ true)
    → All (λ d. is_some (lookup d.client all) ≡ true) (deliveries note m)
unfolding lookup deliveries
only_listed note all [] h = tt
only_listed note all ((k, v) ∷ m) h =
    (h k (rw (beq_refl k) refl), only_listed note all m (λ j q. h j (ground arith)))

module _ (up : UpstreamConnManager) where
  -- After a request to subscribe has succeeded, a notification of upstream under the id of the
  -- subscription is sent to this client, under the id of its request (none for `eth_subscribe`),
  -- and to nobody who is not subscribed.
  pub add_subscription-on_subscription_message :
      (client : ℕ) (msg note : JsonRpcMsg) (b c : Broker up.Conn) (id : String)
      → IsConsistent b.pool b.sm
      → GivesFresh up b
      → add_subscription up client msg b ≡ ok (c, got id)
      → note.id ≡ str id
      → (ds : List Delivery) × (on_subscription_message up note c ≡ ok ds)
        × Any (λ d. d ≡ record { client = client; msg = clone_with_id note (client_sub_id msg) }) ds
        × All (λ d. client_subscribed id d.client c.sm ≡ true) ds
  unfolding on_subscription_message client_subscribed get_subscription_clients clone_with_id
  add_subscription-on_subscription_message client msg note b c id v fresh e n =
      let m = get_subscription_clients id c.sm in
      let js = add_subscription-Added up client msg b (c, got id) v fresh e in
      (
        deliveries note m,
        rw (n, on_subscription_message) refl,
        sent note client (client_sub_id msg) m js.notified,
        only_listed note m m (λ k h. h),
      )
