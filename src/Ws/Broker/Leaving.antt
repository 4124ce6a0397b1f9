-- ===== src/Ws/Broker/Leaving.antt =====
-- A client that leaves, ws_broker.go: by a request to unsubscribe, from all at once, or when it
-- disconnects.
use cosmoguard.Prelude.{
  ℕ, ◌≡◌, refl, sym, ◌∙◌, ◌⊎◌, ◌&&◌, not, Bool, true, false, List, [], ◌∷◌, String, Option, none,
  some, lookup, is_some, string_eq, nat_eq, nat_beq_iff, any, ◌==◌, arith, Bool-cases, Option-cases,
  inl, inr, subst,
}
use cosmoguard.Go.{Result, ok, >>=-eq-ok, ok-injective}
use cosmoguard.JsonRpc.Msg.{JsonRpcMsg}
use cosmoguard.Ws.{Attempt, got, failed}
use cosmoguard.Ws.Utils.{get_subscription_param}
use cosmoguard.Ws.Subscriptions.{
  client_subscribed, unsubscribe_client, subscription_empty, or_nil_map, Clients, get_subscriptions,
  subscriptions_of,
}
use cosmoguard.Ws.Subscriptions.Laws.{unsubscribe_client-client_subscribed}
use cosmoguard.Ws.Pool
use cosmoguard.Ws.Pool.{UpstreamConnManager, UpstreamPool}
use cosmoguard.Ws.Pool.Maps.{Left, unsubscribe-Left}
use cosmoguard.Ws.Broker.{
  Broker, forget, drop_empty, leave, leave_all, remove_all_subscriptions, on_client_disconnect,
  unsubscribe_from, subscription_of,
}
use cosmoguard.Ws.Broker
use cosmoguard.Ws.Broker.Consistent.{
  IsConsistent, SameMaps-IsConsistent, SameIds-IsConsistent, unsubscribe_client-SameIds,
  removed-IsConsistent, removed-subscribed,
}

-- The broker stays consistent, and of the subscriptions exactly those that `gone` names are left.
pub record Leaves {Conn : Type 0} (b c : Broker Conn) (gone : String → ℕ → Bool) : Type 0 where
  pub consistent : IsConsistent c.pool c.sm
  pub subscribed :
      (id : String) (client : ℕ)
      → client_subscribed id client c.sm
        ≡ (not (gone id client) && client_subscribed id client b.sm)

listed :
    (client : ℕ) (id : String) (m : List (String × Clients))
    → is_some (lookup client (or_nil_map (lookup id m))) ≡ true
    → any (λ i. i == id) (subscriptions_of client m) ≡ true
unfolding lookup subscriptions_of
listed client id [] h = cc
listed client id ((i, m) ∷ rest) h = ground (arith, listed client id rest)

module _ (up : UpstreamConnManager) where
  forget-Leaves :
      (id : String) (b : Broker up.Conn) (q : UpstreamPool up.Conn) (err : Option String)
      → IsConsistent b.pool b.sm
      → subscription_empty id b.sm ≡ true
      → Left up id b.pool (q, err)
      → Leaves b (forget up id err (record b { pool = q })).0 (λ j c. false)
  unfolding forget
  forget-Leaves id b q (some err) c empty l = record {
    consistent = SameMaps-IsConsistent l c;
    subscribed = λ j d. refl;
  }
  forget-Leaves id b q none c empty l = record {
    consistent = removed-IsConsistent up id b.pool q b.sm c l;
    subscribed = λ j d. removed-subscribed id j d b.sm empty;
  }

  drop_empty-Leaves :
      (id : String) (b : Broker up.Conn) (r : Broker up.Conn × Option String)
      → IsConsistent b.pool b.sm
      → drop_empty up id b ≡ ok r
      → Leaves b r.0 (λ j c. false)
  unfolding drop_empty
  drop_empty-Leaves id b r c e = elim (Bool-cases (subscription_empty id b.sm)) [
    | inl empty ↦
        let (a, asked, e1) =
          >>=-eq-ok (Pool.unsubscribe up id b.pool) _ (rw (empty, drop_empty) at e) in
        subst (λ (x : Broker up.Conn × Option String). Leaves b x.0 (λ j d. false))
          (ok-injective e1)
          (forget-Leaves id b a.0 a.1 c empty (unsubscribe-Left up id b.pool a asked))
    | inr kept ↦
        subst (λ (x : Broker up.Conn × Option String). Leaves b x.0 (λ j d. false))
          (ok-injective (rw (kept, drop_empty) at e))
          (record { consistent = c; subscribed = λ j d. refl })
  ]

  pub leave-Leaves :
      (client : ℕ) (id : String) (b : Broker up.Conn) (r : Broker up.Conn × Option String)
      → IsConsistent b.pool b.sm
      → leave up client id b ≡ ok r
      → Leaves b r.0 (λ j c. id == j && client == c)
  unfolding leave
  leave-Leaves client id b r c e =
      let u = unsubscribe_client-client_subscribed id client b.sm c.valid in
      let same = unsubscribe_client-SameIds id client b.sm in
      let d =
        drop_empty-Leaves id (record b { sm = unsubscribe_client id client b.sm }) r
          (SameIds-IsConsistent same u.0 c) e in
      record { consistent = d.consistent; subscribed = λ j k. d.subscribed j k ∙ u.1 j k }

  -- The loop over the subscriptions of a client, where upstream reports no error.
  leave_all-Leaves :
      (client : ℕ) (ids : List String) (b : Broker up.Conn) (r : Broker up.Conn × Option String)
      → IsConsistent b.pool b.sm
      → leave_all up client ids b ≡ ok r
      → IsConsistent r.0.pool r.0.sm
        × (r.1 ≡ none → Leaves b r.0 (λ j c. any (λ i. i == j) ids && client == c))
  unfolding leave_all
  leave_all-Leaves client [] b r c e =
      subst
        (λ (x : Broker up.Conn × Option String).
          IsConsistent x.0.pool x.0.sm × (x.1 ≡ none → Leaves b x.0 (λ j k. false)))
        (ok-injective e) (c, λ _. record { consistent = c; subscribed = λ j k. refl })
  leave_all-Leaves client (id ∷ ids) b r c e =
      let (a, left, e1) = >>=-eq-ok (leave up client id b) _ e in
      let l = leave-Leaves client id b a c left in
      elim (Option-cases a.1) [
        | inr (err, h) ↦
            subst
              (λ (x : Broker up.Conn × Option String).
                IsConsistent x.0.pool x.0.sm
                × (x.1 ≡ none → Leaves b x.0 (λ j c. any (λ i. i == j) (id ∷ ids) && client == c)))
              (ok-injective (rw h at e1)) (l.consistent, λ fine. absurd (cc))
        | inl h ↦
            let ih = leave_all-Leaves client ids a.0 r l.consistent (rw h at e1) in
            (
              ih.0,
              λ fine. record {
                consistent = ih.0;
                subscribed = λ j k. ground (arith, l.subscribed j k, (ih.1 fine).subscribed j k);
              },
            )
      ]

  -- A client that leaves all its subscriptions, or disconnects, takes the broker to a consistent
  -- state: either exactly this client is on no subscription any more, or upstream has reported an
  -- error, which is returned.
  pub remove_all_subscriptions-Leaves :
      (client : ℕ) (b : Broker up.Conn) (r : Broker up.Conn × Option String)
      → IsConsistent b.pool b.sm
      → remove_all_subscriptions up client b ≡ ok r
      → ((r.1 ≡ none) × Leaves b r.0 (λ j c. client == c))
        ⊎ ((err : String) × (r.1 ≡ some err) × IsConsistent r.0.pool r.0.sm)
  unfolding remove_all_subscriptions get_subscriptions client_subscribed
  remove_all_subscriptions-Leaves client b r c e =
      let l = leave_all-Leaves client (get_subscriptions client b.sm) b r c e in
      elim (Option-cases r.1) [
        | inr (err, h) ↦ inr (err, h, l.0)
        | inl fine ↦ inl (
          fine,
          record {
            consistent = l.0;
            subscribed = λ j k. ground (
              arith,
              (l.1 fine).subscribed j k,
              nat_beq_iff client k,
              listed client j b.sm.client_subscriptions,
            );
          },
        )
      ]

  abbrev Unsubscribed : ℕ → Broker up.Conn → Broker up.Conn × Option String → Type 0
  Unsubscribed client b r =
      ((err : String) × (r ≡ (b, some err)))
      ⊎ ((id : String) × (client_subscribed id client b.sm ≡ true)
          × Leaves b r.0 (λ j k. id == j && client == k))

  unsubscribe_from-Leaves :
      (client : ℕ) (param : String) (b : Broker up.Conn) (r : Broker up.Conn × Option String)
      → IsConsistent b.pool b.sm
      → unsubscribe_from up client param b ≡ ok r
      → Unsubscribed client b r
  unfolding unsubscribe_from
  unsubscribe_from-Leaves client param b r c e =
      elim (Option-cases (subscription_of up param b.sm)) [
        | inl n ↦ inl (_, sym (ok-injective (rw (n, unsubscribe_from) at e)))
        | inr (id, k) ↦
            let e1 = rw (k, unsubscribe_from) at e in
            elim (Bool-cases (client_subscribed id client b.sm)) [
              | inl on ↦ inr (id, on, leave-Leaves client id b r c (rw on at e1))
              | inr off ↦ inl (_, sym (ok-injective (rw off at e1)))
            ]
      ]

  -- A request to unsubscribe either changes nothing and is answered with an error, or takes exactly
  -- this client from exactly one subscription, which it was on, and keeps the broker consistent.
  pub remove_subscription-Unsubscribed :
      (client : ℕ) (msg : JsonRpcMsg) (b : Broker up.Conn) (r : Broker up.Conn × Option String)
      → IsConsistent b.pool b.sm
      → Broker.remove_subscription up client msg b ≡ ok r
      → ((err : String) × (r ≡ (b, some err)))
        ⊎ ((id : String) × (client_subscribed id client b.sm ≡ true)
            × Leaves b r.0 (λ j k. id == j && client == k))
  unfolding Broker.remove_subscription
  remove_subscription-Unsubscribed client msg b r c e =
      let (a, read, e1) = >>=-eq-ok (get_subscription_param msg) _ e in by_param a e1
    where
      by_param :
          (a : Attempt String)
          → ◌≡◌ {A = Result (Broker up.Conn × Option String)}
              (elim a [ failed err ↦ ok (b, some err) | got p ↦ unsubscribe_from up client p b ])
              (ok r)
          → Unsubscribed client b r
      by_param (failed err) h = inl (err, sym (ok-injective h))
      by_param (got p) h = unsubscribe_from-Leaves client p b r c h
