-- ===== src/Ws/Proxy/Reading.antt =====
-- What is left to read of a websocket connection while a request is handled: `handleRequest` of
-- ws_proxy.go.
use cosmoguard.Prelude.{
  ℕ, ◌≤◌, ◌<◌, ◌≡◌, refl, sym, ap, ◌∙◌, ◌⊎◌, inl, inr, List, [], ◌∷◌, Bool, true, false, Option,
  none, some, arith, subst, Bool-cases, Option-cases, if◌then◌else◌, ◌==◌, string_eq,
}
use cosmoguard.Go.{Result, ok, ok-injective, >>=-eq-ok, Bytes}
use cosmoguard.Cache.{Error, found}
use cosmoguard.Cache
use cosmoguard.Rules
use cosmoguard.Rules.{RuleAction, RuleCache}
use cosmoguard.Rules.JsonRpc.{JsonRpcRule, match}
use cosmoguard.JsonRpc.Msg.{JsonRpcMsg, clone_with_id, hash, unauthorized_response}
use cosmoguard.JsonRpc.Responses.{is_storable}
use cosmoguard.Ws.Utils.{has_subscription_method}
use cosmoguard.Ws.Broker
use cosmoguard.Ws.Broker.{Broker, on_client_disconnect, handle_subscription}
use cosmoguard.Ws.Client
use cosmoguard.Ws.Client.{
  Sockets, Frame, message, broken, repeated, WsError, err_closed, other, JsonRpcWsClient, Received,
  received, lost,
}
use cosmoguard.Ws.Proxy.{
  WsDeps, State, Outcome, value, error, send, ask_broker, reply, forward, store, answer_cached,
  allow, refuse, handle_request,
}

-- The codes of `IsUnexpectedCloseError` in `ReceiveMsg`.
abbrev pub listed : List ℕ
listed = 1000 ∷ 1001 ∷ 1006 ∷ 1005 ∷ []

-- What a read does to a bound on what is left to read, if it does not panic: it goes down, or the read
-- reports a closure that is expected.
abbrev pub Reads : (net : Sockets) → (net.Conn → ℕ) → net.Conn → net.Conn × Frame → Type 0
Reads net left c (c', message b) = left c' < left c
Reads net left c (c', repeated) = Unit
Reads net left c (c', broken e) =
    (left c' < left c) ⊎ (net.is_unexpected_close_error e listed ≡ false)

-- A socket that in the end reports an expected closure, whatever is written to it, and that closes
-- without an error.
pub record Finite (net : Sockets) (left : net.Conn → ℕ) : Type 0 where
  pub reads : (c : net.Conn) → Reads net left c (net.read_message c)
  pub writes : (b : Bytes) (c : net.Conn) → left (net.write_message b c).0 ≤ left c
  pub closes : (c : net.Conn) → (net.close_conn c).1 ≡ none

module _ (d : WsDeps) (left : d.net.Conn → ℕ) (finite : Finite d.net left) where
  -- What is left to read of a client's connection.
  abbrev pub rest_of : State d → ℕ
  rest_of s = left s.client.conn

  send_msg_lem :
      (msg : JsonRpcMsg) (c : JsonRpcWsClient d.net.Conn)
      → left (Client.send_msg d.net d.codec msg c).0.conn ≤ left c.conn
  unfolding Client.send_msg
  send_msg_lem msg c = elim (Bool-cases c.closed) [
    | inl shut ↦ rw (shut, Client.send_msg) (omega arith)
    | inr fresh ↦ elim (Option-cases (d.codec.marshal_one msg)) [
      | inl n ↦ rw (fresh, n, Client.send_msg) (omega arith)
      | inr (b, e) ↦ rw (fresh, e, Client.send_msg) (finite.writes b c.conn)
    ]
  ]

  send_lem : (msg : JsonRpcMsg) (s : State d) → rest_of (send d msg s).0 ≤ rest_of s
  unfolding send
  send_lem msg s = send_msg_lem msg s.client

  ask_lem :
      (req : JsonRpcMsg) (s : State d) (r : State d × Outcome JsonRpcMsg)
      → ask_broker d req s ≡ ok r
      → rest_of r.0 ≡ rest_of s
  unfolding ask_broker handle_subscription Client.set_on_disconnect_callback
  ask_lem req s r e = elim (Bool-cases (has_subscription_method req)) [
    | inl sub ↦
        let (x, e1, e2) =
          >>=-eq-ok (handle_subscription d.up s.addr req s.client s.broker) _
            (rw (sub, ask_broker) at e) in
        let (y, e3, e4) = >>=-eq-ok (Broker.dispatch d.up s.addr req s.broker) _ e1 in
        sym (ap (λ (z : State d × Outcome JsonRpcMsg). rest_of z.0) (ok-injective e2))
        ∙ sym (ap (λ z. left z.0.conn) (ok-injective e4))
    | inr plain ↦
        let (x, e1, e2) =
          >>=-eq-ok (Broker.handle_request d.up req s.broker) _ (rw (plain, ask_broker) at e) in
        sym (ap (λ (z : State d × Outcome JsonRpcMsg). rest_of z.0) (ok-injective e2))
  ]

  reply_lem : (o : Outcome JsonRpcMsg) (s : State d) → rest_of (reply d o s).0 ≤ rest_of s
  unfolding reply
  reply_lem (error err) s = omega arith
  reply_lem (value res) s = send_lem res s

  forward_lem :
      (req : JsonRpcMsg) (s : State d) (r : State d × Outcome JsonRpcMsg)
      → forward d req s ≡ ok r
      → rest_of r.0 ≤ rest_of s
  unfolding forward
  forward_lem req s r e =
      let (x, e1, e2) = >>=-eq-ok (ask_broker d req s) _ e in
      let a = ask_lem req s x e1 in
      let b = reply_lem x.1 x.0 in
      subst (λ (z : State d × Outcome JsonRpcMsg). rest_of z.0 ≤ rest_of s) (ok-injective e2)
        (subst (λ n. rest_of (reply d x.1 x.0).0 ≤ n) a b)

  store_lem :
      (key : ℕ) (cache : RuleCache) (o : Outcome JsonRpcMsg) (s : State d)
      → rest_of (store d key cache o s).0 ≡ rest_of s
  unfolding store
  store_lem key cache (error err) s = refl
  store_lem key cache (value res) s = elim (Bool-cases (is_storable cache res)) [
    | inl is_so ↦ rw (is_so, store) refl
    | inr not_so ↦ rw (not_so, store) refl
  ]

  answer_lem :
      (req : JsonRpcMsg) (f : Cache.Found JsonRpcMsg) (s : State d)
      → rest_of (answer_cached d req f s).0 ≤ rest_of s
  unfolding answer_cached
  answer_lem req (Cache.failed err) s = omega arith
  answer_lem req (found res) s = send_lem (clone_with_id res req.id) s

  allow_lem :
      (req : JsonRpcMsg) (cache : Option RuleCache) (s : State d) (r : State d × Option WsError)
      → allow d req cache s ≡ ok r
      → rest_of r.0 ≤ rest_of s
  unfolding allow
  allow_lem req none s r e =
      let (x, e1, e2) = >>=-eq-ok (forward d req s) _ e in
      subst (λ (z : State d × Option WsError). rest_of z.0 ≤ rest_of s) (ok-injective e2)
        (forward_lem req s x e1)
  allow_lem req (some cache) s r e =
      let key = hash d.codec req in
      let looked = d.cache.has key s.cache in
      let s' : State d = record s { cache = looked.0 } in
      elim (Bool-cases looked.1) [
        | inl hit ↦
            subst (λ (z : State d × Option WsError). rest_of z.0 ≤ rest_of s)
              (ok-injective (rw (hit, allow) at e))
              (answer_lem req (d.cache.get key looked.0).1
                (record s' { cache = (d.cache.get key looked.0).0 }))
        | inr miss ↦
            let (x, e1, e2) = >>=-eq-ok (forward d req s') _ (rw (miss, allow) at e) in
            subst (λ (z : State d × Option WsError). rest_of z.0 ≤ rest_of s) (ok-injective e2)
              (subst (λ n. n ≤ rest_of s) (sym (store_lem key cache x.1 x.0))
                (forward_lem req s' x e1))
      ]

  pub handle_request_lem :
      (rules : List (JsonRpcRule d.globs.Glob)) (default : RuleAction) (req : JsonRpcMsg)
      (s : State d) (r : State d × Option WsError)
      → handle_request d rules default req s ≡ ok r
      → rest_of r.0 ≤ rest_of s
  unfolding handle_request refuse
  handle_request_lem [] default req s r e = elim (Bool-cases (default == Rules.allow)) [
    | inl is_so ↦ allow_lem req none s r (rw (is_so, handle_request) at e)
    | inr not_so ↦
        subst (λ (z : State d × Option WsError). rest_of z.0 ≤ rest_of s)
          (ok-injective (rw (not_so, handle_request) at e)) (send_lem (unauthorized_response req) s)
  ]
  handle_request_lem (rule ∷ rules) default req s r e =
      let (hit, e1, e2) = >>=-eq-ok (match d.globs rule req.method req.params) _ e in
      by_hit hit (handle_request_lem rules default req s r) e2
    where
      rest : Result (State d × Option WsError)
      rest = handle_request d rules default req s

      decided : Result (State d × Option WsError)
      decided =
          if rule.action == Rules.allow
          then allow d req rule.cache s
          else if rule.action == Rules.deny
          then ok (refuse d req s)
          else rest

      by_hit :
          (hit : Bool)
          → (rest ≡ ok r → rest_of r.0 ≤ rest_of s)
          → (if hit then decided else rest) ≡ ok r
          → rest_of r.0 ≤ rest_of s
      by_hit false later h = later h
      by_hit true later h = elim (Bool-cases (rule.action == Rules.allow)) [
        | inl is_so ↦ allow_lem req rule.cache s r (rw is_so at h)
        | inr not_so ↦ elim (Bool-cases (rule.action == Rules.deny)) [
          | inl deny ↦
              subst (λ (z : State d × Option WsError). rest_of z.0 ≤ rest_of s)
                (ok-injective (rw (not_so, deny) at h)) (send_lem (unauthorized_response req) s)
          | inr other_action ↦ later (rw (not_so, other_action) at h)
        ]
      ]
