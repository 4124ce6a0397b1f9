-- ===== src/Ws/Proxy/Rounds.antt =====
-- What a round of the loop of `HandleConnection`, ws_proxy.go, leaves of the agreement between the
-- broker and its pool.
use cosmoguard.Prelude.{
  ℕ, ◌≡◌, refl, sym, inl, inr, List, Bool, true, false, Option, none, some, subst, Bool-cases,
  string_eq, if◌then◌else◌,
}
use cosmoguard.Go.{Result, ok, ok-injective, ◌>>=◌, >>=-eq-ok, panic, repeated_read}
use cosmoguard.Cache.{Error}
use cosmoguard.Rules.{RuleAction}
use cosmoguard.Rules.JsonRpc.{JsonRpcRule}
use cosmoguard.Ws.Broker.{Broker, on_client_disconnect}
use cosmoguard.Ws.Broker.Joining.{GivesFresh}
use cosmoguard.Ws.Broker.Serving.{Agree, on_client_disconnect_lem}
use cosmoguard.Ws.Client
use cosmoguard.Ws.Client.{
  Frame, message, broken, repeated, WsError, err_closed, other, JsonRpcWsClient, Received, received,
  lost, decode_frame,
}
use cosmoguard.Ws.Proxy.{WsDeps, State, handle_request, close_client, receive, round}
use cosmoguard.Ws.Proxy.Reading.{listed}
use cosmoguard.Ws.Proxy.Agreeing.{serve_lem}

module _ (d : WsDeps) where
  close_lem :
      (callback : Broker d.up.Conn → Result (Broker d.up.Conn)) (k : JsonRpcWsClient d.net.Conn)
      (b : Broker d.up.Conn) (r : JsonRpcWsClient d.net.Conn × Broker d.up.Conn × Option WsError)
      → ((b' : Broker d.up.Conn) → callback b ≡ ok b' → Agree b')
      → Agree b
      → Client.close d.net d.codec callback k b ≡ ok r
      → Agree r.1
  unfolding Client.close
  close_lem callback k b r keeps c e = elim (Bool-cases k.closed) [
    | inl shut ↦ subst Fine (ok-injective (rw (shut, Client.close) at e)) c
    | inr fresh ↦
        let (b', e1, e2) =
          >>=-eq-ok (if k.on_disconnect then callback b else ok b) _
            (rw (fresh, Client.close) at e) in
        by_error (d.net.close_conn k.conn).0 (d.net.close_conn k.conn).1 b'
          (by_callback k.on_disconnect b' e1) e2
  ]
    where
      Fine : JsonRpcWsClient d.net.Conn × Broker d.up.Conn × Option WsError → Type 0
      Fine x = Agree x.1

      by_callback :
          (set : Bool) (b' : Broker d.up.Conn)
          → (if set then callback b else ok b) ≡ ok b'
          → Agree b'
      by_callback true b' h = keeps b' h
      by_callback false b' h = subst (λ (x : Broker d.up.Conn). Agree x) (ok-injective h) c

      by_error :
          (conn' : d.net.Conn) (err : Option Error) (b' : Broker d.up.Conn)
          → Agree b'
          → ◌≡◌ {A = Result (JsonRpcWsClient d.net.Conn × Broker d.up.Conn × Option WsError)}
              (elim err [
                | some e ↦ ok (record k { conn = conn' }, b', some (other e))
                | none ↦ ok (record k { conn = conn'; closed = true }, b', none)
              ])
              (ok r)
          → Agree r.1
      by_error conn' (some e) b' a h = subst Fine (ok-injective h) a
      by_error conn' none b' a h = subst Fine (ok-injective h) a

  -- A message leaves the broker as it is.
  abbrev Reads : Broker d.up.Conn → Broker d.up.Conn → Received → Type 0
  Reads b b' (received m) = b' ≡ b
  Reads b b' (lost err) = Agree b'

  receive_msg_lem :
      (addr : ℕ) (k : JsonRpcWsClient d.net.Conn) (b : Broker d.up.Conn)
      (r : JsonRpcWsClient d.net.Conn × Broker d.up.Conn × Received)
      → Agree b
      → Client.receive_msg d.net d.codec (on_client_disconnect d.up addr) k b ≡ ok r
      → Reads b r.1 r.2
  unfolding Client.receive_msg
  receive_msg_lem addr k b r c e = elim (Bool-cases k.closed) [
    | inl shut ↦ subst Fine (ok-injective (rw (shut, Client.receive_msg) at e)) c
    | inr fresh ↦ by_frame (d.net.read_message k.conn) (rw (fresh, Client.receive_msg) at e)
  ]
    where
      Fine : JsonRpcWsClient d.net.Conn × Broker d.up.Conn × Received → Type 0
      Fine x = Reads b x.1 x.2

      decoded : (x : Received) → Reads b b x
      decoded (received m) = refl
      decoded (lost err) = c

      by_frame :
          (x : d.net.Conn × Frame)
          → (let k' = record k { conn = x.0 } in
              elim x.1 [
                | message bytes ↦ ok (k', b, decode_frame d.net d.codec bytes)
                | broken err ↦
                    if d.net.is_unexpected_close_error err listed
                    then ok (k', b, lost (other err))
                    else (do
                      (c2, b', e) ← Client.close d.net d.codec (on_client_disconnect d.up addr) k' b
                      ok (c2, b', lost err_closed))
                | repeated ↦ panic repeated_read
              ])
            ≡ ok r
          → Reads b r.1 r.2
      by_frame (conn', message bytes) h =
          subst Fine (ok-injective h) (decoded (decode_frame d.net d.codec bytes))
      by_frame (conn', repeated) h = absurd (cc)
      by_frame (conn', broken err) h =
          elim (Bool-cases (d.net.is_unexpected_close_error err listed)) [
            | inl unexpected ↦ subst Fine (ok-injective (rw unexpected at h)) c
            | inr expected ↦
                let (x, e1, e2) =
                  >>=-eq-ok
                    (Client.close d.net d.codec (on_client_disconnect d.up addr)
                      (record k { conn = conn' }) b)
                    _ (rw expected at h) in
                subst Fine (ok-injective e2) (
                  close_lem (on_client_disconnect d.up addr) (record k { conn = conn' }) b x
                    (λ b' left. on_client_disconnect_lem d.up addr b b' c left) c e1)
          ]

  -- A round of the loop of a connection, whether its client sends a request, subscribes or leaves, or
  -- has gone, keeps the broker and its pool in agreement, where the ids that upstream gives to new
  -- subscriptions are not in use.
  pub round-Agree :
      (rules : List (JsonRpcRule d.globs.Glob)) (default : RuleAction) (s t : State d) (more : Bool)
      → Agree s.broker
      → GivesFresh d.up s.broker
      → round d rules default s ≡ ok (t, more)
      → Agree t.broker
  unfolding round receive close_client
  round-Agree rules default s t more c fresh e =
      let (x, e1, e2) = >>=-eq-ok (receive d s) _ e in
      let (y, e3, e4) =
        >>=-eq-ok
          (Client.receive_msg d.net d.codec (on_client_disconnect d.up s.addr) s.client s.broker) _
          e1 in
      by_received x.0 x.1
        (subst (λ (z : State d × Received). Reads s.broker z.0.broker z.1) (ok-injective e4)
          (receive_msg_lem s.addr s.client s.broker y c e3))
        e2
    where
      Fine : State d × Bool → Type 0
      Fine x = Agree x.0.broker

      after : State d → Received → Result (State d × Bool)
      after s1 (received request) = (do
        (s2, err) ← handle_request d rules default request s1
        ok (s2, true))
      after s1 (lost err_closed) = (do s2 ← close_client d s1; ok (s2, false))
      after s1 (lost (other text)) = ok (s1, true)

      by_received :
          (s1 : State d) (r : Received)
          → Reads s.broker s1.broker r
          → after s1 r ≡ ok (t, more)
          → Agree t.broker
      by_received s1 (received request) same h =
          let (x, e1, e2) = >>=-eq-ok (handle_request d rules default request s1) _ h in
          subst Fine (ok-injective e2) (
            serve_lem d rules default request s1 x
              (subst (λ (b : Broker d.up.Conn). Agree b) (sym same) c)
              (subst (λ (b : Broker d.up.Conn). GivesFresh d.up b) (sym same) fresh) e1)
      by_received s1 (lost err_closed) a h =
          let (s2, e1, e2) = >>=-eq-ok (close_client d s1) _ h in
          let (x, e3, e4) =
            >>=-eq-ok
              (Client.close d.net d.codec (on_client_disconnect d.up s1.addr) s1.client s1.broker) _
              e1 in
          subst Fine (ok-injective e2) (
            subst (λ (z : State d). Agree z.broker) (ok-injective e4)
              (close_lem _ s1.client s1.broker x
                (λ b' left. on_client_disconnect_lem d.up s1.addr s1.broker b' a left) a e3))
      by_received s1 (lost (other text)) a h = subst Fine (ok-injective h) a
