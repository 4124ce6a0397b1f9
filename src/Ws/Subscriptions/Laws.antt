-- ===== src/Ws/Subscriptions/Laws.antt =====
-- When the maps of the subscription manager of ws_subscriptions.go agree, and who is subscribed.
use cosmoguard.Prelude.{
  ℕ, ◌≡◌, refl, ◌↔◌, true, ◌&&◌, ◌||◌, not, [], String, none, some, lookup, insert, remove,
  lookup-insert, lookup-remove, is_some, nat_eq, string_eq, ◌==◌, arith, eq_iff, Option-cases, inl,
  inr,
}
use cosmoguard.Go.{ok, Value}
use cosmoguard.Ws.Subscriptions.{
  SubscriptionManager, add_subscription, remove_subscription, subscribe_client, unsubscribe_client,
  client_subscribed,
}

-- Parameters and ids name each other, and the ids with a set of clients are the known ones.
pub record IsValid (s : SubscriptionManager) : Type 0 where
  pub agree :
      (param id : String)
      → (lookup param s.param_to_id ≡ some id) ↔ (lookup id s.id_to_param ≡ some param)
  pub kept :
      (id : String) → is_some (lookup id s.client_subscriptions) ≡ is_some (lookup id s.id_to_param)

lookup_nil : (c : ℕ) → lookup {V = Value} c [] ≡ none
unfolding lookup
lookup_nil c = refl

-- A new subscription, whose parameter and id are both unknown, keeps the maps in agreement.
pub add_subscription-IsValid :
    (param id : String) (s : SubscriptionManager)
    → IsValid s
    → lookup param s.param_to_id ≡ none
    → lookup id s.id_to_param ≡ none
    → IsValid (add_subscription param id s)
unfolding add_subscription
add_subscription-IsValid param id s v p i = record {
  agree = λ q j. ground (
    arith,
    v.agree q j,
    v.agree param j,
    v.agree q id,
    lookup-insert param q id s.param_to_id,
    lookup-insert id j param s.id_to_param,
    eq_iff param q,
    eq_iff id j,
  );
  kept = λ j. ground (
    arith,
    v.kept j,
    lookup-insert id j [] s.client_subscriptions,
    lookup-insert id j param s.id_to_param,
  );
}

-- To remove a known subscription keeps the maps in agreement.
pub remove_subscription-IsValid :
    (param id : String) (s : SubscriptionManager)
    → IsValid s
    → lookup id s.id_to_param ≡ some param
    → IsValid (remove_subscription id s)
unfolding remove_subscription
remove_subscription-IsValid param id s v i = record {
  agree = λ q j. rw i (
      ground (
        arith,
        v.agree q j,
        v.agree param j,
        v.agree param id,
        v.agree q id,
        lookup-remove param q s.param_to_id,
        lookup-remove id j s.id_to_param,
        eq_iff param q,
        eq_iff id j,
      ));
  kept = λ j. ground (
    arith,
    v.kept j,
    lookup-remove id j s.client_subscriptions,
    lookup-remove id j s.id_to_param,
  );
}

-- On a known subscription a client can subscribe: there is no write to a nil map, the maps stay in
-- agreement, and exactly this client is added, to this subscription only.
pub subscribe_client-client_subscribed :
    (id : String) (client : ℕ) (sub : Value) (s : SubscriptionManager)
    → IsValid s
    → is_some (lookup id s.id_to_param) ≡ true
    → (s' : SubscriptionManager) × (subscribe_client id client sub s ≡ ok s')
      × IsValid s'
      × ((j : String) (c : ℕ)
          → client_subscribed j c s' ≡ ((id == j && client == c) || client_subscribed j c s))
unfolding subscribe_client client_subscribed
subscribe_client-client_subscribed id client sub s v known =
    elim (Option-cases (lookup id s.client_subscriptions)) [
      | inl e ↦ absurd (let k = v.kept id in ground arith)
      | inr (m, e) ↦
          let s' : SubscriptionManager = record s {
            client_subscriptions = insert id (insert client sub m) s.client_subscriptions;
          } in
          (
            s',
            rw (e, subscribe_client),
            record {
              agree = v.agree;
              kept = λ j. ground (
                arith,
                v.kept j,
                v.kept id,
                lookup-insert id j (insert client sub m) s.client_subscriptions,
                eq_iff id j,
              );
            },
            λ j c. ground (
              arith,
              lookup-insert id j (insert client sub m) s.client_subscriptions,
              lookup-insert client c sub m,
              eq_iff id j,
            ),
          )
    ]

-- To unsubscribe a client keeps the maps in agreement, and takes exactly this client from exactly
-- this subscription, known or not.
pub unsubscribe_client-client_subscribed :
    (id : String) (client : ℕ) (s : SubscriptionManager)
    → IsValid s
    → IsValid (unsubscribe_client id client s)
      × ((j : String) (c : ℕ)
          → client_subscribed j c (unsubscribe_client id client s)
            ≡ (not (id == j && client == c) && client_subscribed j c s))
unfolding unsubscribe_client client_subscribed
unsubscribe_client-client_subscribed id client s v =
    elim (Option-cases (lookup id s.client_subscriptions)) [
      | inl e ↦ rw (e, unsubscribe_client) (v, λ j c. ground (arith, eq_iff id j, lookup_nil c))
      | inr (m, e) ↦
          rw (e, unsubscribe_client)
            (
              record {
                agree = v.agree;
                kept = λ j. ground (
                  arith,
                  v.kept j,
                  v.kept id,
                  lookup-insert id j (remove client m) s.client_subscriptions,
                  eq_iff id j,
                );
              },
              λ j c. ground (
                arith,
                lookup-insert id j (remove client m) s.client_subscriptions,
                lookup-remove client c m,
                eq_iff id j,
              ),
            )
    ]
