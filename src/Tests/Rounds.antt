-- ===== src/Tests/Rounds.antt =====
-- The theorem on a round of the loop of a websocket connection at a client that subscribes.
use cosmoguard.Prelude.{◌≡◌, refl, [], true, false, none, insert, lookup, nat_eq, string_eq}
use cosmoguard.Go.{ok, index}
use cosmoguard.Rules.{allow}
use cosmoguard.JsonRpc.Msg.{parse_json_rpc_message}
use cosmoguard.Ws.Utils.{has_subscription_method, get_subscription_param}
use cosmoguard.Ws.Subscriptions
use cosmoguard.Ws.Pool
use cosmoguard.Ws.Broker
use cosmoguard.Ws.Client
use cosmoguard.Ws.Client.{new_json_rpc_ws_client}
use cosmoguard.Ws.Proxy
use cosmoguard.Ws.Proxy.{WsDeps, State}
use cosmoguard.Ws.Broker.Serving.{Agree}
use cosmoguard.Ws.Proxy.Rounds.{round-Agree}
use cosmoguard.Tests.Samples.{codec}
use cosmoguard.Tests.Broker.{idle, idle-IsConsistent, idle-GivesFresh}
use cosmoguard.Tests.Proxy.{told, eth_request}
use cosmoguard.Tests.Ending.{some_messages, deps, next_frame}

-- Every message asks for the subscription `heads`.
abbrev asking : WsDeps
asking = record (deps some_messages) {
  codec = record codec { unmarshal_one = λ b. (eth_request, none) };
}

abbrev session : State asking
session = record { addr = 3; client = new_json_rpc_ws_client 1; broker = idle; cache = [] }

abbrev joined : State asking
joined = record {
  addr = 3;
  client = record { conn = 0; closed = false; on_disconnect = true };
  broker = told.broker;
  cache = [];
}

joins : Proxy.round asking [] allow session ≡ ok (joined, true)
unfolding Proxy.round Proxy.receive Client.receive_msg next_frame parse_json_rpc_message
    Proxy.handle_request Proxy.allow Proxy.forward Proxy.ask_broker Proxy.reply Proxy.send
    Client.send_msg Client.set_on_disconnect_callback has_subscription_method
    Broker.handle_subscription Broker.dispatch Broker.add_subscription Broker.subscribe_to
    Broker.open_subscription Broker.join get_subscription_param Pool.subscribe Pool.subscribe_new
    Pool.get_connection Pool.pick Pool.record_subscription Subscriptions.add_subscription
    Subscriptions.subscribe_client Subscriptions.get_subscription_id lookup insert index
    new_json_rpc_ws_client
joins = refl

round-Agree_example : Agree told.broker
round-Agree_example =
    round-Agree asking [] allow session joined true idle-IsConsistent idle-GivesFresh joins
