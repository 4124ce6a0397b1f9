-- ===== src/Tests/Eth.antt =====
-- The theorems on the steps of the manager for Ethereum at a concrete run: the connection is lost and
-- made anew before the call.
use cosmoguard.Prelude.{
  ◌≡◌, ◌≢◌, refl, [], ◌∷◌, true, false, String, Option, none, some, Any, inl, lookup, insert,
}
use cosmoguard.Go.{str, itoa}
use cosmoguard.JsonRpc.Msg.{JsonRpcMsg}
use cosmoguard.Util.UniqueId
use cosmoguard.Ws.Upstream.{
  asking, Call, connecting, dropped, reading, handing, Manager, msg_id, respond, register,
  begin_call, submit,
}
use cosmoguard.Ws.Upstream.Eth.{
  on_upstream_message, after_connect, re_submit_subscriptions, reset_all,
}
use cosmoguard.Ws.Upstream.Eth.Run.{
  EthManager, new_eth_manager, with_manager, EthStep, connected, restarted, closed, received,
  called, make_request, EthReach, here, next,
}
use cosmoguard.Ws.Upstream.Eth.Handing.{EthReach-handing}
use cosmoguard.Ws.Upstream.Eth.Dropped.{back, after_connect-drops}
use cosmoguard.Tests.Samples.{message}

abbrev block_number : JsonRpcMsg
block_number = message "eth_blockNumber" 7

abbrev call : Call
call = record { id = "6"; chan = 0; req = block_number; purpose = asking }

abbrev response : JsonRpcMsg
response = record (message "" 0) { id = str "6" }

abbrev silent : String → Manager → Manager × Option String
silent param m = (m, none)

abbrev started : EthManager
started = record {
  client = some false;
  manager = record (new_eth_manager.manager) { loop = reading };
}

abbrev waiting : EthManager
waiting =
    with_manager started
      (begin_call "6" block_number asking (record (started.manager) { ids = ("6", true) ∷ [] }))

abbrev arrived : EthManager
arrived = with_manager waiting (record (waiting.manager) { loop = handing 0 response })

lost_and_back : EthReach new_eth_manager started
unfolding after_connect re_submit_subscriptions reset_all
lost_and_back =
    next
      (next
        (next (next (next here (connected refl refl)) (restarted silent refl refl)) (closed refl))
        (connected refl refl))
      (restarted silent refl refl)

drawn : UniqueId.id (6 ∷ []) [] ≡ some (("6", true) ∷ [], "6")
unfolding UniqueId.id lookup insert itoa
drawn = refl

arrives : EthStep waiting arrived
unfolding begin_call submit register on_upstream_message lookup insert itoa
arrives = received {route = respond 0} response refl refl

to_arrived : EthReach new_eth_manager arrived
to_arrived =
    next (next lost_and_back (called (6 ∷ []) drawn (make_request block_number) refl)) arrives

is_waiting : Any (λ x. x ≡ call) waiting.manager.calls
unfolding begin_call
is_waiting = inl refl

EthReach-handing_example : msg_id response.id ≡ some "6"
EthReach-handing_example = EthReach-handing arrived call response to_arrived refl is_waiting

-- The connection is lost while the call waits; its response comes on the next one, and is dropped.
abbrev connected_anew : EthManager
connected_anew = record {
  client = some false;
  manager = record (waiting.manager) { loop = connecting };
}

to_connected_anew : EthReach new_eth_manager connected_anew
unfolding begin_call submit register
to_connected_anew =
    next
      (next (next lost_and_back (called (6 ∷ []) drawn (make_request block_number) refl))
        (closed refl))
      (connected refl refl)

drops : EthReach (back silent connected_anew) (back silent connected_anew)
unfolding after_connect re_submit_subscriptions reset_all on_upstream_message lookup itoa begin_call
    submit register
drops = next here (received {route = dropped} response refl refl)

after_connect-drops_example : (back silent connected_anew).manager.loop ≢ handing 0 response
after_connect-drops_example =
    after_connect-drops silent connected_anew (back silent connected_anew) call to_connected_anew
      is_waiting drops response
