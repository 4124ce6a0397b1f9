-- ===== src/Ws/Proxy.antt =====
-- `JsonRpcWebSocketProxy` of ws_proxy.go: each message of a websocket client is held against the
-- rules, and answered from the cache, by the broker, or with a refusal. Locks, logs and metrics are
-- left out; a request is handled with the rules as they stand.
pub mod Laws
pub mod Caching
pub mod Closing
pub mod Reading
pub mod Ending
pub mod Agreeing
pub mod Rounds
use Prim.Native.String
use cosmoguard.Prelude.{
  ℕ, zero, suc, List, [], ◌∷◌, Bool, true, false, String, Option, none, some, if◌then◌else◌,
  string_eq, ◌==◌,
}
use cosmoguard.Go.{Result, ok, ◌>>=◌}
use cosmoguard.Glob.{Globs}
use cosmoguard.Cache.{Cache, Found, found}
use cosmoguard.Cache
use cosmoguard.Cache.Options.{Backing}
use cosmoguard.Rules
use cosmoguard.Rules.{RuleAction, RuleCache}
use cosmoguard.Rules.JsonRpc.{JsonRpcRule, match}
use cosmoguard.JsonRpc.Msg.{JsonRpcMsg, Codec, hash, clone_with_id, unauthorized_response}
use cosmoguard.JsonRpc.Responses.{is_storable}
use cosmoguard.Ws.{Attempt, got, failed}
use cosmoguard.Ws.Utils.{has_subscription_method}
use cosmoguard.Ws.Pool.{UpstreamConnManager}
use cosmoguard.Ws.Upstream.{Unconnected}
use cosmoguard.Ws.Broker
use cosmoguard.Ws.Broker.{Broker}
use cosmoguard.Ws.Client
use cosmoguard.Ws.Client.{
  Sockets, WsError, err_closed, other, JsonRpcWsClient, Received, received, lost,
}

-- What the proxy uses of other modules and of libraries.
pub record WsDeps : Type 1 where
  pub globs : Globs
  pub cache : Cache ℕ JsonRpcMsg
  pub codec : Codec
  pub net : Sockets
  pub up : UpstreamConnManager

-- The proxy as it is made, with the broker over connections that are not made yet; a `Session` below
-- has the broker and the cache as they change.
pub record JsonRpcWebSocketProxy (Glob : Type 0) : Type 0 where
  pub rules : List (JsonRpcRule Glob)
  pub default_action : RuleAction
  pub broker : Broker Unconnected
  pub cache : Backing
  pub ws_backend : String
  pub response_time_hist : Option String

unfoldable pub set_rules :
    {Glob : Type 0}
    → JsonRpcWebSocketProxy Glob
    → List (JsonRpcRule Glob)
    → RuleAction
    → JsonRpcWebSocketProxy Glob
set_rules p rules default = record p { rules = rules; default_action = default }

-- The state that a request of one client sees: the client, at its address, the broker and the cache.
pub record Session (Conn Upstream State : Type 0) : Type 0 where
  pub addr : ℕ
  pub client : JsonRpcWsClient Conn
  pub broker : Broker Upstream
  pub cache : State

-- What goes on after a step: a value, or the error that `handleRequest` returns.
pub data Outcome (A : Type 0) : Type 0 where
  value : A → Outcome A
  error : WsError → Outcome A

module _ (d : WsDeps) where
  abbrev pub State : Type 0
  State = Session d.net.Conn d.up.Conn d.cache.State

  -- `client.SendMsg`; `none` for no error.
  unfoldable pub send : JsonRpcMsg → State → State × Option WsError
  send msg s =
      let (c, err) = Client.send_msg d.net d.codec msg s.client in (record s { client = c }, err)

  as_outcome : Attempt JsonRpcMsg → Outcome JsonRpcMsg
  as_outcome (got m) = value m
  as_outcome (failed err) = error (other err)

  -- The broker's answer to an allowed request.
  unfoldable pub ask_broker : JsonRpcMsg → State → Result (State × Outcome JsonRpcMsg)
  unfolding as_outcome
  ask_broker request s =
      if has_subscription_method request
      then (do
        (c, b, res) ← Broker.handle_subscription d.up s.addr request s.client s.broker
        ok (record s { client = c; broker = b }, as_outcome res))
      else (do
        (b, res) ← Broker.handle_request d.up request s.broker
        ok (record s { broker = b }, as_outcome res))

  -- The answer is sent to the client; an error ends the handling.
  unfoldable pub reply : Outcome JsonRpcMsg → State → State × Outcome JsonRpcMsg
  reply (error err) s = (s, error err)
  reply (value res) s =
      let (s', err) = send res s in (s', elim err [ none ↦ value res | some e ↦ error e ])

  unfoldable pub forward : JsonRpcMsg → State → Result (State × Outcome JsonRpcMsg)
  unfolding reply ask_broker
  forward request s = do (s', res) ← ask_broker request s; ok (reply res s')

  abbrev pub to_error : {A : Type 0} → Outcome A → Option WsError
  to_error (value _) = none
  to_error (error err) = some err

  -- What is stored after a miss, as the settings say; `enable` is not read.
  unfoldable pub store : ℕ → RuleCache → Outcome JsonRpcMsg → State → State × Option WsError
  store key cache (error err) s = (s, some err)
  store key cache (value res) s =
      if is_storable cache res
      then (let (c, err) = d.cache.set key res cache.ttl s.cache in
          (
            record s { cache = c },
            elim err [
              | none ↦ none
              | some e ↦ some (other (String.◌++◌ "error storing in cache: " e))
            ],
          ))
      else (s, none)

  -- After `Get`.
  answer_cached : JsonRpcMsg → Found JsonRpcMsg → State → State × Option WsError
  answer_cached request (Cache.failed err) s = (s, some (other err))
  answer_cached request (found res) s = send (clone_with_id res request.id) s

  -- A matching rule that allows the request.
  unfoldable pub allow : JsonRpcMsg → Option RuleCache → State → Result (State × Option WsError)
  unfolding answer_cached store forward
  allow request none s = do (s', res) ← forward request s; ok (s', to_error res)
  allow request (some cache) s =
      let key = hash d.codec request in
      let (c, cached, err) = d.cache.has key s.cache in
      if cached
      then (let (c', res) = d.cache.get key c in
          ok (answer_cached request res (record s { cache = c' })))
      else (do (s', res) ← forward request (record s { cache = c }); ok (store key cache res s'))

  unfoldable pub refuse : JsonRpcMsg → State → State × Option WsError
  refuse request s = send (unauthorized_response request) s

  -- `handleRequest`: the loop over the rules, and the default action.
  unfoldable pub handle_request :
      List (JsonRpcRule d.globs.Glob)
      → RuleAction
      → JsonRpcMsg
      → State
      → Result (State × Option WsError)
  handle_request [] default request s =
      if default == Rules.allow then allow request none s else ok (refuse request s)
  handle_request (rule ∷ rules) default request s = do
    hit ← match d.globs rule request.method request.params
    let rest = handle_request rules default request s
    if hit
        then (if rule.action == Rules.allow
            then allow request rule.cache s
            else if rule.action == Rules.deny
            then ok (refuse request s)
            else rest)
        else rest

  -- `client.Close()`, and `client.ReceiveMsg()`, whose callback is the broker's.
  unfoldable pub close_client : State → Result State
  close_client s = do
    (c, b, err) ←
        Client.close d.net d.codec (Broker.on_client_disconnect d.up s.addr) s.client s.broker
    ok (record s { client = c; broker = b })

  unfoldable pub receive : State → Result (State × Received)
  receive s = do
    (c, b, r) ←
        Client.receive_msg d.net d.codec (Broker.on_client_disconnect d.up s.addr) s.client s.broker
    ok (record s { client = c; broker = b }, r)

  -- One round of the loop of `HandleConnection`; `false` where it breaks.
  unfoldable pub round :
      List (JsonRpcRule d.globs.Glob) → RuleAction → State → Result (State × Bool)
  round rules default s = do
    (s1, r) ← receive s
    elim r [
      | received request ↦ (do (s2, err) ← handle_request rules default request s1; ok (s2, true))
      | lost err ↦ elim err [
        | err_closed ↦ (do s2 ← close_client s1; ok (s2, false))
        | other text ↦ ok (s1, true)
      ]
    ]

  -- The loop, with one round of fuel for each message; `none` if it goes on. The deferred `Close`
  -- runs at its end. After a panic it runs as well, which is left out: only the fault is returned.
  unfoldable pub handle_connection :
      ℕ → List (JsonRpcRule d.globs.Glob) → RuleAction → State → Result (Option State)
  handle_connection zero rules default s = ok none
  handle_connection (suc fuel) rules default s = do
    (s', more) ← round rules default s
    let rest = handle_connection fuel rules default s'
    if more then rest else (do s2 ← close_client s'; ok (some s2))
