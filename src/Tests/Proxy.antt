-- ===== src/Tests/Proxy.antt =====
-- The theorems on the websocket proxy at concrete states.
use cosmoguard.Prelude.{
  ℕ, suc, ◌≡◌, ◌⊎◌, refl, [], ◌∷◌, true, false, String, Option, none, some, lookup, insert, remove,
  nat_eq, string_eq, ◌==◌,
}
use cosmoguard.Go.{index, ok, ◌>>=◌, str, nil}
use cosmoguard.Rules.{allow, deny}
use cosmoguard.Policy.{verdict}
use cosmoguard.JsonRpc.Msg.{JsonRpcMsg, clone_with_id, hash, with_result}
use cosmoguard.Rules.JsonRpc.{JsonRpcRule}
use cosmoguard.JsonRpc.Responses.{is_storable}
use cosmoguard.Ws.Utils.{get_subscription_param, has_subscription_method}
use cosmoguard.Ws.Subscriptions
use cosmoguard.Ws.Subscriptions.{SubscriptionManager, new_subscription_manager, client_subscribed}
use cosmoguard.Ws.Pool
use cosmoguard.Ws.Pool.{UpstreamPool}
use cosmoguard.Ws.Broker
use cosmoguard.Ws.Broker.{Broker, Delivery}
use cosmoguard.Ws.Broker.Consistent.{IsConsistent}
use cosmoguard.Ws.Broker.Leaving.{Leaves}
use cosmoguard.Ws.Client.{Sockets, broken, new_json_rpc_ws_client, WsError}
use cosmoguard.Ws.Client
use cosmoguard.Ws.Proxy
use cosmoguard.Ws.Proxy.{WsDeps, State, value}
use cosmoguard.Ws.Proxy.Laws.{view_of, enforce, handle_request-enforce}
use cosmoguard.Ws.Proxy.Caching.{allow_replays_answer}
use cosmoguard.Ws.Proxy.Closing.{close_client-Leaves}
use cosmoguard.Tests.Samples.{globs, table, table-Keeps, codec, upstream, message, cached}
use cosmoguard.Tests.Broker.{idle, busy, left, heads_request, busy-Joins}

-- A socket that counts the messages it was given, and has none to read.
abbrev pub sockets : Sockets
sockets = record {
  Conn = ℕ;
  read_message = λ c. (c, broken "EOF");
  write_message = λ b c. (suc c, none);
  close_conn = λ c. (c, none);
  is_unexpected_close_error = λ e codes. false;
}

abbrev ws_deps : WsDeps
ws_deps = record { globs = globs; cache = table; codec = codec; net = sockets; up = upstream }

abbrev session : Broker ℕ → State ws_deps
session b = record { addr = 3; client = new_json_rpc_ws_client 0; broker = b; cache = [] }

abbrev rule : String → JsonRpcRule String
rule action = record {
  priority = 1;
  action = action;
  methods = "status" ∷ [];
  params = nil;
  cache = none;
  method_globs = "status" ∷ [];
  params_globs = [];
  params_map = false;
  params_slice = false;
}

handle_request-enforce_example :
    Proxy.handle_request ws_deps
      (rule allow ∷ rule deny ∷ [])
      deny
      (message "status" 7)
      (session idle)
    ≡ (verdict (view_of ws_deps (message "status" 7)) deny (rule allow ∷ rule deny ∷ [])
        >>= enforce ws_deps (message "status" 7) (session idle))
handle_request-enforce_example =
    handle_request-enforce ws_deps (rule allow ∷ rule deny ∷ []) deny (message "status" 7)
      (session idle)

-- The answer to a request to subscribe, and the state that it leaves.
abbrev pub eth_request : JsonRpcMsg
eth_request = heads_request "eth_subscribe"

abbrev answer : JsonRpcMsg
answer = with_result eth_request (str "heads")

abbrev pub told : State ws_deps
told = record {
  addr = 3;
  client = record { conn = 1; closed = false; on_disconnect = true };
  broker = record busy {
    sm = record (busy.sm) { client_subscriptions = ("heads", (3, nil) ∷ []) ∷ [] };
  };
  cache = [];
}

asked : Proxy.forward ws_deps eth_request (session idle) ≡ ok (told, value answer)
unfolding Proxy.forward Proxy.ask_broker Proxy.reply Proxy.send Client.send_msg
    Client.set_on_disconnect_callback has_subscription_method Broker.handle_subscription
    Broker.dispatch Broker.add_subscription Broker.subscribe_to Broker.open_subscription Broker.join
    get_subscription_param Pool.subscribe Pool.subscribe_new Pool.get_connection Pool.pick
    Pool.record_subscription Subscriptions.add_subscription Subscriptions.subscribe_client
    Subscriptions.get_subscription_id lookup insert index new_json_rpc_ws_client
asked = refl

-- Another client makes the same request.
abbrev second : State ws_deps
second = record told {
  addr = 4;
  client = new_json_rpc_ws_client 0;
  cache = (hash codec eth_request, answer) ∷ [];
}

asked_and_stored :
    Proxy.allow ws_deps eth_request (some cached) (session idle)
    ≡ ok (record told { cache = (hash codec eth_request, answer) ∷ [] }, none)
unfolding Proxy.allow Proxy.store is_storable with_result Proxy.forward Proxy.ask_broker Proxy.reply
    Proxy.send Client.send_msg Client.set_on_disconnect_callback has_subscription_method
    Broker.handle_subscription Broker.dispatch Broker.add_subscription Broker.subscribe_to
    Broker.open_subscription Broker.join get_subscription_param Pool.subscribe Pool.subscribe_new
    Pool.get_connection Pool.pick Pool.record_subscription Subscriptions.add_subscription
    Subscriptions.subscribe_client Subscriptions.get_subscription_id lookup insert index
    new_json_rpc_ws_client
asked_and_stored = refl

allow_replays_answer_example :
    (u : State ws_deps) × (err : Option WsError) × (Proxy.allow ws_deps eth_request
        (some cached)
        second
      ≡ ok (u, err))
    × (u.broker ≡ second.broker)
    × (u.client
        ≡ (Client.send_msg ws_deps.net codec (clone_with_id answer eth_request.id) second.client).0)
allow_replays_answer_example =
    allow_replays_answer ws_deps table-Keeps cached eth_request eth_request (session idle) told
      (record told { cache = (hash codec eth_request, answer) ∷ [] }) second none answer refl refl
      (unfold lookup in refl) asked (unfold with_result in refl) (unfold with_result in refl)
      asked_and_stored refl

-- Client 3, on the subscription `heads`.
abbrev online : State ws_deps
online = record {
  addr = 3;
  client = record { conn = 1; closed = false; on_disconnect = true };
  broker = busy;
  cache = [];
}

abbrev offline : State ws_deps
offline = record online {
  client = record { conn = 1; closed = true; on_disconnect = true };
  broker = left;
}

closes : Proxy.close_client ws_deps online ≡ ok offline
unfolding Proxy.close_client Client.close Broker.on_client_disconnect
    Broker.remove_all_subscriptions Broker.leave_all Broker.leave Broker.drop_empty Broker.forget
    Pool.unsubscribe Pool.forget Subscriptions.remove_subscription Subscriptions.unsubscribe_client
    Subscriptions.get_subscriptions Subscriptions.subscriptions_of Subscriptions.subscription_empty
    lookup insert remove
closes = refl

close_client-Leaves_example :
    (offline.client.closed ≡ true)
    × IsConsistent left.pool left.sm
    × (Leaves busy left (λ j c. 3 == c)
        ⊎ ((err : String) × (Broker.remove_all_subscriptions upstream 3 busy
              ≡ ok (left, some err))))
close_client-Leaves_example =
    close_client-Leaves ws_deps online offline busy-Joins.consistent refl refl refl closes
