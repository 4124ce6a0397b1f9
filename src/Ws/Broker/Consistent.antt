-- ===== src/Ws/Broker/Consistent.antt =====
-- When the broker and its pool agree on the subscriptions of upstream: ws_broker.go, ws_upstream_pool.go.
use cosmoguard.Prelude.{
  ℕ, ◌≡◌, refl, true, [], ◌∷◌, String, none, lookup, lookup-remove, is_some, is_nil, string_eq,
  nat_eq, arith, eq_iff, Option-cases, inl, inr,
}
use cosmoguard.Ws.Subscriptions
use cosmoguard.Ws.Subscriptions.{
  SubscriptionManager, client_subscribed, unsubscribe_client, remove_subscription,
  subscription_empty, or_nil_map, Clients,
}
use cosmoguard.Ws.Subscriptions.Laws.{IsValid, remove_subscription-IsValid}
use cosmoguard.Ws.Pool.{UpstreamConnManager, UpstreamPool}
use cosmoguard.Ws.Pool.Maps.{SameMaps, Forgotten}

pub record IsConsistent {Conn : Type 0} (p : UpstreamPool Conn) (sm : SubscriptionManager)
    : Type 0 where
  pub valid : IsValid sm
  pub ids : (param : String) → lookup param p.subscription_id ≡ lookup param sm.param_to_id
  pub params : (id : String) → lookup id p.subscription_param ≡ lookup id sm.id_to_param
  pub held :
      (id : String) → is_some (lookup id p.subscription_conn) ≡ is_some (lookup id sm.id_to_param)

pub SameMaps-IsConsistent :
    {Conn : Type 0} {p q : UpstreamPool Conn} {sm : SubscriptionManager}
    → SameMaps p q
    → IsConsistent p sm
    → IsConsistent q sm
SameMaps-IsConsistent s c = record {
  valid = c.valid;
  ids = λ param. rw s.ids (c.ids param);
  params = λ id. rw s.params (c.params id);
  held = λ id. rw s.conns (c.held id);
}

-- Only the maps of clients differ.
pub record SameIds (s t : SubscriptionManager) : Type 0 where
  pub to_id : t.param_to_id ≡ s.param_to_id
  pub to_param : t.id_to_param ≡ s.id_to_param

pub SameIds-IsConsistent :
    {Conn : Type 0} {p : UpstreamPool Conn} {s t : SubscriptionManager}
    → SameIds s t
    → IsValid t
    → IsConsistent p s
    → IsConsistent p t
SameIds-IsConsistent e v c = record {
  valid = v;
  ids = λ param. rw e.to_id (c.ids param);
  params = λ id. rw e.to_param (c.params id);
  held = λ id. rw e.to_param (c.held id);
}

pub unsubscribe_client-SameIds :
    (id : String) (client : ℕ) (s : SubscriptionManager)
    → SameIds s (unsubscribe_client id client s)
unfolding unsubscribe_client
unsubscribe_client-SameIds id client s = elim (Option-cases (lookup id s.client_subscriptions)) [
  | inl n ↦ rw (n, unsubscribe_client) (record { to_id = refl; to_param = refl })
  | inr (m, e) ↦ rw (e, unsubscribe_client) (record { to_id = refl; to_param = refl })
]

-- A subscription that no client is left on can be removed.
pub removed-IsConsistent :
    (up : UpstreamConnManager) (id : String) (p q : UpstreamPool up.Conn) (sm : SubscriptionManager)
    → IsConsistent p sm
    → Forgotten up id p q
    → IsConsistent q (remove_subscription id sm)
unfolding remove_subscription
removed-IsConsistent up id p q sm c f = elim (Option-cases (lookup id sm.id_to_param)) [
  | inl n ↦ absurd (let h = c.held id in let k = f.known.1 in ground arith)
  | inr (param, e) ↦ record {
    valid = unfold remove_subscription in remove_subscription-IsValid param id sm c.valid e;
    ids = λ r.
        rw (f.ids, c.params id)
          (ground (
            arith,
            c.ids r,
            lookup-remove (Subscriptions.or_empty (lookup id sm.id_to_param)) r p.subscription_id,
            lookup-remove (Subscriptions.or_empty (lookup id sm.id_to_param)) r sm.param_to_id,
          ));
    params = λ j. rw f.params (
        ground (
          arith,
          c.params j,
          lookup-remove id j p.subscription_param,
          lookup-remove id j sm.id_to_param,
        ));
    held = λ j. rw f.conns (
        ground (
          arith,
          c.held j,
          lookup-remove id j p.subscription_conn,
          lookup-remove id j sm.id_to_param,
        ));
  }
]

nobody : (m : Clients) (c : ℕ) → is_nil m ≡ true → lookup c m ≡ none
unfolding lookup
nobody [] c h = refl
nobody (x ∷ m) c h = cc

pub removed-subscribed :
    (id j : String) (c : ℕ) (sm : SubscriptionManager)
    → subscription_empty id sm ≡ true
    → client_subscribed j c (remove_subscription id sm) ≡ client_subscribed j c sm
unfolding remove_subscription client_subscribed subscription_empty lookup
removed-subscribed id j c sm empty = ground (
  arith,
  lookup-remove id j sm.client_subscriptions,
  eq_iff id j,
  nobody (or_nil_map (lookup id sm.client_subscriptions)) c empty,
)
