-- ===== src/Ws/Upstream/Eth/Run.antt =====
-- `UpstreamConnManagerEth` of ws_upstream_eth.go as a step relation between the goroutine of `Run` and
-- the goroutines of the requests. Go leaves open which of them moves. A panic ends the program, and has
-- no step.
use cosmoguard.Prelude.{ℕ, ◌≡◌, List, [], Bool, true, false, String, Option, none, some, Any}
use cosmoguard.Go.{Value, nil, str, slice, item, empty, ok}
use cosmoguard.JsonRpc.Msg.{JsonRpcMsg}
use cosmoguard.Util.UniqueId
use cosmoguard.Util.UniqueId.{UniqueId, release}
use cosmoguard.Ws.Upstream.{
  Purpose, asking, subscribing, unsubscribing, Call, connecting, reading, handing, Manager, Route,
  after_message, begin_call, fail_call, time_out,
}
use cosmoguard.Ws.Upstream.Eth.{on_upstream_message, has_subscription, finish_call, after_connect}

-- The field `client`, by whether it is closed; `none` for nil.
pub record EthManager : Type 0 where
  pub client : Option Bool
  pub manager : Manager

-- `u.client == nil || u.client.IsClosed()`.
abbrev pub no_client : Option Bool → Bool
no_client none = true
no_client (some closed) = closed

-- `EthUpstreamConnManager`, before `Run`.
abbrev pub new_eth_manager : EthManager
new_eth_manager = record {
  client = none;
  manager = record {
    loop = connecting;
    ids = [];
    resp_map = [];
    sub_by_id = [];
    sub_by_param = [];
    calls = [];
    next_chan = 0;
    sent = [];
  };
}

-- The messages of `subscribeWithID` and of `Unsubscribe`.
abbrev pub subscription_request : String → String → Value → JsonRpcMsg
subscription_request method param id = record {
  version = "2.0";
  id = id;
  method = method;
  params = slice (item (str param) empty);
  result = nil;
  error = none;
}

-- What a goroutine may ask for: the message, what it is for, and the guard of `Subscribe`. To
-- unsubscribe looks up the parameter only at the end.
pub data EthAsks (m : Manager) (id : String) : JsonRpcMsg → Purpose → Type 0 where
  make_request : (req : JsonRpcMsg) → EthAsks m id req asking
  subscribe :
      (param : String)
      → has_subscription param m ≡ false
      → EthAsks m id (subscription_request "eth_subscribe" param (str id)) (subscribing param)
  unsubscribe :
      (sub param : String)
      → EthAsks m id (subscription_request "eth_unsubscribe" sub nil) (unsubscribing sub param)

-- A new state of the manager's fields, under the same client.
abbrev pub with_manager : EthManager → Manager → EthManager
with_manager s m = record s { manager = m }

-- To close a socket is taken to succeed. To register a call, to send its message and to wait is one
-- step, and so is all that a call does with its response, or when it times out.
pub data EthStep (s : EthManager) : EthManager → Type 0 where
  -- The loop of `Run`; the connection is made, and then `resetAll` and `reSubmitSubscriptions` follow.
  connect_failed : s.manager.loop ≡ connecting → no_client s.client ≡ true → EthStep s s
  connected :
      s.manager.loop ≡ connecting
      → no_client s.client ≡ true
      → EthStep s (record s { client = some false })
  restarted :
      (subscribe : String → Manager → Manager × Option String)
      → s.manager.loop ≡ connecting
      → no_client s.client ≡ false
      → EthStep s (with_manager s (after_connect subscribe s.manager).0)
  received :
      {route : Route} (msg : JsonRpcMsg)
      → s.manager.loop ≡ reading
      → on_upstream_message msg s.manager ≡ ok route
      → EthStep s (with_manager s (record (s.manager) { loop = after_message route msg }))
  unread : s.manager.loop ≡ reading → EthStep s s
  closed :
      s.manager.loop ≡ reading
      → EthStep s
          (record { client = some true; manager = record (s.manager) { loop = connecting } })
  -- The send of `Run` meets the receive of a call that waits.
  handed :
      (c : Call) {msg : JsonRpcMsg} {m : Manager}
      → s.manager.loop ≡ handing c.chan msg
      → Any (λ x. x ≡ c) s.manager.calls
      → finish_call c msg s.manager ≡ ok m
      → EthStep s (with_manager s (record m { loop = reading }))
  -- The other goroutines; without a client a call ends before it is registered.
  called :
      {id : String} {ids : UniqueId} {req : JsonRpcMsg} {purpose : Purpose} (draws : List ℕ)
      → UniqueId.id draws s.manager.ids ≡ some (ids, id)
      → EthAsks s.manager id req purpose
      → no_client s.client ≡ false
      → EthStep s (with_manager s (begin_call id req purpose (record (s.manager) { ids = ids })))
  unsent :
      {id : String} {ids : UniqueId} {req : JsonRpcMsg} {purpose : Purpose} (draws : List ℕ)
      → UniqueId.id draws s.manager.ids ≡ some (ids, id)
      → EthAsks s.manager id req purpose
      → no_client s.client ≡ false
      → EthStep s (with_manager s (fail_call id (record (s.manager) { ids = ids })))
  refused :
      {id : String} {ids : UniqueId} {req : JsonRpcMsg} {purpose : Purpose} (draws : List ℕ)
      → UniqueId.id draws s.manager.ids ≡ some (ids, id)
      → EthAsks s.manager id req purpose
      → no_client s.client ≡ true
      → EthStep s (with_manager s (record (s.manager) { ids = release id ids }))
  timed_out :
      (c : Call)
      → Any (λ x. x ≡ c) s.manager.calls
      → EthStep s (with_manager s (time_out c s.manager))

pub data EthReach (s : EthManager) : EthManager → Type 0 where
  here : EthReach s s
  next : {t u : EthManager} → EthReach s t → EthStep t u → EthReach s u
