-- ===== src/Ws/Pool/Laws.antt =====
-- Which connection the pool picks, and what it remembers of a subscription.
use cosmoguard.Prelude.{
  ℕ, zero, suc, ◌+◌, ◌-◌, ◌%◌, ◌^◌, ◌≤◌, ◌<◌, ◌≡◌, refl, ap, ◌∙◌, String, Option, none, some,
  lookup, lookup-insert, length, beq_refl, arith, string_eq,
}
use native.Mathlib.Nat.{mod-lt}
use cosmoguard.Go.{ok, panic, >>=-eq-ok, ok-injective, index_out_of_range}
use cosmoguard.JsonRpc.Msg.{JsonRpcMsg}
use cosmoguard.Ws.{Attempt, got, failed}
use cosmoguard.Ws.Pool.{
  UpstreamConnManager, UpstreamPool, pick, get_connection, make_request, at, record_subscription,
  subscribe_new, subscribe,
}

pick-suc : (n len : ℕ) → 1 ≤ len → pick (suc n) len ≡ ok (n % len)
unfolding pick
pick-suc n zero h = absurd (omega arith)
pick-suc n (suc len) h = refl

pick-zero : (len : ℕ) → 2 ≤ len → pick 0 len ≡ panic index_out_of_range
unfolding pick
pick-zero zero h = absurd (omega arith)
pick-zero (suc zero) h = absurd (omega arith)
pick-zero (suc (suc len)) h = refl

module _ (up : UpstreamConnManager) where
  -- While the counter has not reached the end of 32 bits, the pool picks its connections in turn, and
  -- always one that exists.
  pub get_connection-turn :
      (p : UpstreamPool up.Conn)
      → 1 ≤ length p.conn
      → p.conn_idx < 2 ^ 32 - 1
      → (get_connection up p
          ≡ ok (record p { conn_idx = p.conn_idx + 1 }, p.conn_idx % length p.conn))
        × (p.conn_idx % length p.conn < length p.conn)
  unfolding get_connection
  get_connection-turn p n early =
      let next : (p.conn_idx + 1) % 2 ^ 32 ≡ suc p.conn_idx = omega arith in
      (
        rw (next, pick-suc p.conn_idx (length p.conn) n)
            (ap (λ m. ok (record p { conn_idx = m }, p.conn_idx % length p.conn)) (omega arith)),
        mod-lt p.conn_idx n,
      )

  -- At the end of 32 bits a pool of two connections or more panics, whatever it is asked for.
  pub get_connection-wraps :
      (p : UpstreamPool up.Conn) (msg : JsonRpcMsg)
      → p.conn_idx ≡ 2 ^ 32 - 1
      → 2 ≤ length p.conn
      → (get_connection up p ≡ panic index_out_of_range)
        × (make_request up msg p ≡ panic index_out_of_range)
  unfolding get_connection make_request
  get_connection-wraps p msg end two =
      let next : (p.conn_idx + 1) % 2 ^ 32 ≡ 0 = omega arith in
      let stops : get_connection up p ≡ panic index_out_of_range =
        rw (next, pick-zero (length p.conn) two) refl in
      (stops, rw stops refl)

  recorded :
      (param id : String) (i : ℕ) (answer : Attempt String) (p p' : UpstreamPool up.Conn)
      → record_subscription up param i answer p ≡ (p', got id)
      → lookup param p'.subscription_id ≡ some id
  unfolding record_subscription
  recorded param id i (failed err) p p' e = absurd (cc)
  recorded param id i (got id') p p' e =
      let same : id' ≡ id = cc in
      rw (← ap (λ (x : UpstreamPool up.Conn × Attempt String). x.0) e, same)
        (lookup-insert param param id p.subscription_id ∙ rw (beq_refl param) refl)

  found_again :
      (param id : String) (p p' : UpstreamPool up.Conn) (o : Option String)
      → lookup param p.subscription_id ≡ o
      → subscribe up param p ≡ ok (p', got id)
      → lookup param p'.subscription_id ≡ some id
  unfolding subscribe subscribe_new
  found_again param id p p' (some old) o e =
      let q : (p, got old) ≡ (p', got id) = ok-injective (rw (o, subscribe) at e) in
      let same : old ≡ id = cc in
      rw (← ap (λ (x : UpstreamPool up.Conn × Attempt String). x.0) q) (o ∙ ap some same)
  found_again param id p p' none o e =
      let (a, picked, e1) =
        >>=-eq-ok (get_connection up p) _ (rw (o, subscribe, subscribe_new) at e) in
      let (b, asked, e2) = >>=-eq-ok (at up a.1 (up.subscribe param) a.0) _ e1 in
      recorded param id a.1 b.1 b.0 p' (ok-injective e2)

  -- A subscription that was opened is shared: to subscribe to the same parameter again returns the
  -- same id, and neither asks upstream nor changes the pool.
  pub subscribe-again :
      (param id : String) (p p' : UpstreamPool up.Conn)
      → subscribe up param p ≡ ok (p', got id)
      → subscribe up param p' ≡ ok (p', got id)
  unfolding subscribe
  subscribe-again param id p p' e =
      let known = found_again param id p p' (lookup param p.subscription_id) refl e in
      rw (known, subscribe) refl
