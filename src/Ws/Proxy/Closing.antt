-- ===== src/Ws/Proxy/Closing.antt =====
-- A websocket client that is closed: ws_proxy.go, ws_jsonrpc_client.go and the callback of ws_broker.go.
use cosmoguard.Prelude.{
  ◌≡◌, refl, sym, ap, ◌∙◌, ◌⊎◌, inl, inr, true, false, String, Option, none, some, nat_eq, ◌==◌,
  if◌then◌else◌, subst,
}
use cosmoguard.Go.{Result, ok, panic, ◌>>=◌, >>=-eq-ok, ok-injective}
use cosmoguard.Ws.Client
use cosmoguard.Ws.Client.{JsonRpcWsClient, WsError, other}
use cosmoguard.Ws.Broker.{Broker, remove_all_subscriptions, on_client_disconnect}
use cosmoguard.Ws.Broker.Consistent.{IsConsistent}
use cosmoguard.Ws.Broker.Leaving.{Leaves, remove_all_subscriptions-Leaves}
use cosmoguard.Ws.Proxy.{WsDeps, State, close_client}

module _ (d : WsDeps) where
  -- The state that a successful `Close` leaves, when the callback has left this broker.
  abbrev after_close : State d → Broker d.up.Conn → State d
  after_close s b = record s {
    client = record (s.client) { conn = (d.net.close_conn s.client.conn).0; closed = true };
    broker = b;
  }

  open_lem :
      (s : State d)
      → s.client.closed ≡ false
      → s.client.on_disconnect ≡ true
      → (d.net.close_conn s.client.conn).1 ≡ none
      → close_client d s ≡ (on_client_disconnect d.up s.addr s.broker >>= λ b. ok (after_close s b))
  unfolding close_client Client.close
  open_lem s fresh set fine =
      rw (fresh, fine, close_client, Client.close)
        (through (
            if s.client.on_disconnect
            then on_client_disconnect d.up s.addr s.broker
            else ok s.broker)
          ∙ ap
              (λ k. (if k then on_client_disconnect d.up s.addr s.broker else ok s.broker) >>= λ b.
                ok (after_close s b))
              set)
    where
      through :
          (m : Result (Broker d.up.Conn))
          → ((m >>= λ b. ok ((after_close s b).client, b, none))
              >>= λ (r : JsonRpcWsClient d.net.Conn × Broker d.up.Conn × Option WsError).
                  ok (record s { client = r.0; broker = r.1 }))
            ≡ (m >>= λ b. ok (after_close s b))
      through (ok b) = refl
      through (panic fault) = refl

  report :
      (s t : State d) (r : Broker d.up.Conn × Option String)
      → r.0 ≡ t.broker
      → remove_all_subscriptions d.up s.addr s.broker ≡ ok r
      → ((r.1 ≡ none) × Leaves s.broker r.0 (λ j c. s.addr == c))
        ⊎ ((err : String) × (r.1 ≡ some err) × IsConsistent r.0.pool r.0.sm)
      → IsConsistent t.broker.pool t.broker.sm
        × (Leaves s.broker t.broker (λ j c. s.addr == c)
            ⊎ ((err : String) × (remove_all_subscriptions d.up s.addr s.broker
                  ≡ ok (t.broker, some err))))
  report s t r same gone (inl (fine, l)) =
      let l' = subst (λ b. Leaves s.broker b (λ j c. s.addr == c)) same l in (l'.consistent, inl l')
  report s t r same gone (inr (err, h, c)) = (
    subst (λ (b : Broker d.up.Conn). IsConsistent b.pool b.sm) same c,
    inr (err, gone ∙ λ i. ok (same i, h i)),
  )

  -- When an open client that has asked for a subscription is closed, and the socket closes without
  -- an error, it is closed, the broker stays consistent, and exactly this client is on no
  -- subscription any more, unless upstream reports an error while it leaves them.
  pub close_client-Leaves :
      (s t : State d)
      → IsConsistent s.broker.pool s.broker.sm
      → s.client.closed ≡ false
      → s.client.on_disconnect ≡ true
      → (d.net.close_conn s.client.conn).1 ≡ none
      → close_client d s ≡ ok t
      → (t.client.closed ≡ true)
        × IsConsistent t.broker.pool t.broker.sm
        × (Leaves s.broker t.broker (λ j c. s.addr == c)
            ⊎ ((err : String) × (remove_all_subscriptions d.up s.addr s.broker
                  ≡ ok (t.broker, some err))))
  unfolding on_client_disconnect
  close_client-Leaves s t c fresh set fine e =
      let (b, left, e1) =
        >>=-eq-ok (on_client_disconnect d.up s.addr s.broker) _
          (sym (open_lem s fresh set fine) ∙ e) in
      let (r, gone, e2) = >>=-eq-ok (remove_all_subscriptions d.up s.addr s.broker) _ left in
      let ends : after_close s b ≡ t = ok-injective e1 in
      let told =
        report s t r (ok-injective e2 ∙ ap (λ (x : State d). x.broker) ends) gone
          (remove_all_subscriptions-Leaves d.up s.addr s.broker r c gone) in
      (ap (λ (x : State d). x.client.closed) (sym ends), told.0, told.1)
