-- ===== src/Ws/Proxy/Ending.antt =====
-- How a websocket connection ends: the loop of `HandleConnection` of ws_proxy.go.
use cosmoguard.Prelude.{
  ℕ, zero, suc, ◌<◌, ◌≤◌, ◌≡◌, refl, sym, ap, List, true, false, Option, none, arith, subst,
}
use cosmoguard.Go.{Result, ok, panic, repeated_read, ◌>>=◌}
use cosmoguard.Rules.{RuleAction}
use cosmoguard.Rules.JsonRpc.{JsonRpcRule}
use cosmoguard.Cache.{Error}
use cosmoguard.Ws.Client
use cosmoguard.Ws.Client.{
  Sockets, Frame, broken, repeated, err_closed, JsonRpcWsClient, Received, lost,
}
use cosmoguard.Ws.Proxy.{WsDeps, State, receive, round, handle_connection}
use cosmoguard.Ws.Proxy.Reading.{listed, Finite}

module _ (d : WsDeps) (left : d.net.Conn → ℕ) (finite : Finite d.net left) where
  -- A message or an error other than `ErrClosed` leaves less to read.
  abbrev Advances : JsonRpcWsClient d.net.Conn → JsonRpcWsClient d.net.Conn → Received → Type 0
  Advances c c' (lost err_closed) = Unit
  Advances c c' _ = left c'.conn < left c.conn

module _ (d : WsDeps) where
  -- A connection on which so many reads fail with the same error before one panics.
  abbrev pub Fails : Error → ℕ → d.net.Conn → Type 0
  Fails err zero c = (c' : d.net.Conn) × (d.net.read_message c ≡ (c', repeated))
  Fails err (suc n) c =
      (c' : d.net.Conn) × (d.net.read_message c ≡ (c', broken err)) × Fails err n c'

  -- When reads begin to fail with a closure that `IsUnexpectedCloseError` reports, the loop of an open
  -- client does not end before a read panics: up to as many rounds as there are reads that fail leave it
  -- going on, and it ends with the panic in the round after them.
  pub handle_connection-panics :
      (n fuel : ℕ) (rules : List (JsonRpcRule d.globs.Glob)) (default : RuleAction) (s : State d)
      (err : Error)
      → s.client.closed ≡ false
      → d.net.is_unexpected_close_error err listed ≡ true
      → Fails err n s.client.conn
      → (fuel ≤ n → handle_connection d fuel rules default s ≡ ok none)
        × (n < fuel → handle_connection d fuel rules default s ≡ panic repeated_read)
  unfolding handle_connection round receive Client.receive_msg
  handle_connection-panics n zero rules default s err fresh unexpected fails =
      (λ le. refl, λ lt. absurd (omega (arith, lt)))
  handle_connection-panics zero (suc fuel) rules default s err fresh unexpected (c', e) = (
    λ le. absurd (omega (arith, le)),
    λ lt. rw (fresh, e, handle_connection, round, receive, Client.receive_msg) refl,
  )
  handle_connection-panics (suc n) (suc fuel) rules default s err fresh unexpected (c', e, fails) =
      let s' : State d = record s {
        client = record (s.client) { conn = (d.net.read_message s.client.conn).0 };
      } in
      let later =
        handle_connection-panics n fuel rules default s' err fresh unexpected
          (subst (Fails err n) (sym (ap (λ (x : d.net.Conn × Frame). x.0) e)) fails) in
      let step : (t : Result (Option (State d)))
          → handle_connection d fuel rules default s' ≡ t
          → handle_connection d (suc fuel) rules default s ≡ t =
        λ t h. rw (fresh, e, unexpected, handle_connection, round, receive, Client.receive_msg) h in
      (
        λ le. step (ok none) (later.0 (omega (arith, le))),
        λ lt. step (panic repeated_read) (later.1 (omega (arith, lt))),
      )
