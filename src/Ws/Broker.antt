-- ===== src/Ws/Broker.antt =====
-- `Broker` of ws_broker.go: clients share the subscriptions of upstream. `upstreamSubMux` makes each
-- operation one step; a client is named by its address.
pub mod Consistent
pub mod Leaving
pub mod Joining
pub mod Broadcast
pub mod Serving
use cosmoguard.Prelude.{
  ℕ, ◌-◌, ◌^◌, true, not, List, [], ◌∷◌, String, Option, none, some, if◌then◌else◌, string_eq, ◌==◌,
}
use cosmoguard.Go.{Result, ok, panic, ◌>>=◌, Value, nil, bool, str, bad_type_assertion}
use cosmoguard.JsonRpc.Msg.{JsonRpcMsg, clone_with_id, error_response, empty_result, with_result}
use cosmoguard.Ws.{Attempt, got, failed}
use cosmoguard.Ws.Utils.{get_subscription_param, is_eth_subscription_id}
use cosmoguard.Ws.Subscriptions
use cosmoguard.Ws.Subscriptions.{SubscriptionManager, Clients}
use cosmoguard.Ws.Pool
use cosmoguard.Ws.Pool.{UpstreamConnManager, UpstreamPool}
use cosmoguard.Ws.Client.{JsonRpcWsClient, set_on_disconnect_callback}

pub record Broker (Conn : Type 0) : Type 0 where
  pub pool : UpstreamPool Conn
  pub sm : SubscriptionManager

unfoldable pub new_broker :
    {Conn : Type 0} → (String → String → Conn) → String → String → ℕ → Result (Broker Conn)
unfolding Pool.new_upstream_pool
new_broker constructor backend path n = do
  pool ← Pool.new_upstream_pool constructor backend path n
  ok (record { pool = pool; sm = Subscriptions.new_subscription_manager })

-- A message for a client.
pub record Delivery : Type 0 where
  pub client : ℕ
  pub msg : JsonRpcMsg

-- The loop of `onSubscriptionMessage` over the clients of a subscription; the goroutines may send in
-- any order.
unfoldable pub deliveries : JsonRpcMsg → Clients → List Delivery
deliveries msg [] = []
deliveries msg ((c, id) ∷ clients) =
    record { client = c; msg = clone_with_id msg id } ∷ deliveries msg clients

-- `-100`, as a 64-bit pattern.
abbrev pub subscription_error : ℕ
subscription_error = 2 ^ 64 - 100

-- The id under which a client wants its notifications.
abbrev pub client_sub_id : JsonRpcMsg → Value
client_sub_id msg = if msg.method == "eth_subscribe" then nil else msg.id

module _ (up : UpstreamConnManager) where
  unfoldable pub handle_request :
      JsonRpcMsg → Broker up.Conn → Result (Broker up.Conn × Attempt JsonRpcMsg)
  handle_request msg b = do
    (pool, res) ← Pool.make_request up msg b.pool
    ok (
      record b { pool = pool },
      elim res [ failed err ↦ failed err | got m ↦ got (clone_with_id m msg.id) ],
    )

  -- The end of `addSubscription`: the client joins a subscription.
  unfoldable pub join :
      ℕ → JsonRpcMsg → String → Broker up.Conn → Result (Broker up.Conn × Attempt String)
  join client msg id b = do
    sm ← Subscriptions.subscribe_client id client (client_sub_id msg) b.sm
    ok (record b { sm = sm }, got id)

  -- The answer of the pool to a parameter that is new to the broker.
  unfoldable pub open_subscription :
      ℕ
      → JsonRpcMsg
      → String
      → Attempt String
      → Broker up.Conn
      → Result (Broker up.Conn × Attempt String)
  unfolding join
  open_subscription client msg param (failed err) b = ok (b, failed err)
  open_subscription client msg param (got id) b =
      join client msg id (record b { sm = Subscriptions.add_subscription param id b.sm })

  unfoldable pub subscribe_to :
      ℕ → JsonRpcMsg → String → Broker up.Conn → Result (Broker up.Conn × Attempt String)
  unfolding open_subscription join
  subscribe_to client msg param b = elim (Subscriptions.get_subscription_id param b.sm) [
    | some id ↦ join client msg id b
    | none ↦ (do
      (pool, answer) ← Pool.subscribe up param b.pool
      open_subscription client msg param answer (record b { pool = pool }))
  ]

  unfoldable pub add_subscription :
      ℕ → JsonRpcMsg → Broker up.Conn → Result (Broker up.Conn × Attempt String)
  unfolding subscribe_to
  add_subscription client msg b = do
    param ← get_subscription_param msg
    elim param [ failed err ↦ ok (b, failed err) | got p ↦ subscribe_to client msg p b ]

  -- After the pool's `Unsubscribe`; an error of upstream keeps the subscription.
  unfoldable pub forget : String → Option String → Broker up.Conn → Broker up.Conn × Option String
  forget id (some err) b = (b, some err)
  forget id none b = (record b { sm = Subscriptions.remove_subscription id b.sm }, none)

  -- A subscription that no client is left on is closed upstream.
  unfoldable pub drop_empty : String → Broker up.Conn → Result (Broker up.Conn × Option String)
  drop_empty id b =
      if Subscriptions.subscription_empty id b.sm
      then (do
        (pool, err) ← Pool.unsubscribe up id b.pool
        ok (forget id err (record b { pool = pool })))
      else ok (b, none)

  -- The client leaves one subscription.
  unfoldable pub leave : ℕ → String → Broker up.Conn → Result (Broker up.Conn × Option String)
  unfolding drop_empty forget
  leave client id b =
      drop_empty id (record b { sm = Subscriptions.unsubscribe_client id client b.sm })

  -- The id that a request to unsubscribe means: itself, or that of its parameter.
  unfoldable pub subscription_of : String → SubscriptionManager → Option String
  subscription_of param sm =
      if is_eth_subscription_id param
      then some param
      else Subscriptions.get_subscription_id param sm

  unfoldable pub unsubscribe_from :
      ℕ → String → Broker up.Conn → Result (Broker up.Conn × Option String)
  unfolding leave subscription_of
  unsubscribe_from client param b = elim (subscription_of param b.sm) [
    | none ↦ ok (b, some "subscription does not exist")
    | some id ↦
        if not (Subscriptions.client_subscribed id client b.sm)
        then ok (b, some "subscription does not exist")
        else leave client id b
  ]

  unfoldable pub remove_subscription :
      ℕ → JsonRpcMsg → Broker up.Conn → Result (Broker up.Conn × Option String)
  unfolding unsubscribe_from
  remove_subscription client msg b = do
    param ← get_subscription_param msg
    elim param [ failed err ↦ ok (b, some err) | got p ↦ unsubscribe_from client p b ]

  -- The loop of `removeAllSubscriptions`; the first error of upstream ends it.
  unfoldable pub leave_all :
      ℕ → List String → Broker up.Conn → Result (Broker up.Conn × Option String)
  leave_all client [] b = ok (b, none)
  leave_all client (id ∷ ids) b = do
    (b', err) ← leave client id b
    let rest = leave_all client ids b'
    elim err [ some e ↦ ok (b', some e) | none ↦ rest ]

  unfoldable pub remove_all_subscriptions :
      ℕ → Broker up.Conn → Result (Broker up.Conn × Option String)
  unfolding leave_all
  remove_all_subscriptions client b =
      leave_all client (Subscriptions.get_subscriptions client b.sm) b

  -- The error is only logged.
  unfoldable pub on_client_disconnect : ℕ → Broker up.Conn → Result (Broker up.Conn)
  on_client_disconnect client b = do (b', err) ← remove_all_subscriptions client b; ok b'

  -- The id must be a text; a panic here ends the program, since no handler recovers it.
  unfoldable pub on_subscription_message : JsonRpcMsg → Broker up.Conn → Result (List Delivery)
  unfolding deliveries
  on_subscription_message msg b = elim msg.id [
    | str id ↦ ok (deliveries msg (Subscriptions.get_subscription_clients id b.sm))
    | _ ↦ panic bad_type_assertion
  ]

  -- The replies of `HandleSubscription`.
  abbrev pub reply_done : JsonRpcMsg → JsonRpcMsg → Option String → JsonRpcMsg
  reply_done msg done none = done
  reply_done msg done (some err) = error_response msg subscription_error err nil

  abbrev pub reply_id : JsonRpcMsg → (String → JsonRpcMsg) → Attempt String → JsonRpcMsg
  reply_id msg done (got id) = done id
  reply_id msg done (failed err) = error_response msg subscription_error err nil

  -- The `switch` of `HandleSubscription` over the method.
  unfoldable pub dispatch :
      ℕ → JsonRpcMsg → Broker up.Conn → Result (Broker up.Conn × Attempt JsonRpcMsg)
  dispatch client msg b =
      if msg.method == "subscribe"
      then (do
        (b', id) ← add_subscription client msg b
        ok (b', got (reply_id msg (λ _. empty_result msg) id)))
      else if msg.method == "unsubscribe"
      then (do
        (b', err) ← remove_subscription client msg b
        ok (b', got (reply_done msg (empty_result msg) err)))
      else if msg.method == "unsubscribe_all"
      then (do
        (b', err) ← remove_all_subscriptions client b
        ok (b', elim err [ none ↦ got (empty_result msg) | some e ↦ failed e ]))
      else if msg.method == "eth_subscribe"
      then (do
        (b', id) ← add_subscription client msg b
        ok (b', got (reply_id msg (λ i. with_result msg (str i)) id)))
      else if msg.method == "eth_unsubscribe"
      then (do
        (b', err) ← remove_subscription client msg b
        ok (b', got (reply_done msg (with_result msg (bool true)) err)))
      else ok (b, failed "unsupported method on subscriptions")

  unfoldable pub handle_subscription :
      {Conn : Type 0}
      → ℕ
      → JsonRpcMsg
      → JsonRpcWsClient Conn
      → Broker up.Conn
      → Result (JsonRpcWsClient Conn × Broker up.Conn × Attempt JsonRpcMsg)
  unfolding dispatch
  handle_subscription addr msg c b = do
    (b', res) ← dispatch addr msg b
    ok (set_on_disconnect_callback c, b', res)
