-- ===== src/Tests/Upstream.antt =====
-- The theorems on the connections to upstream and on the Redis cache at concrete states.
use mathlib.Core.List.Perm
use cosmoguard.Prelude.{
  ℕ, ◌≡◌, ◌≢◌, ◌<◌, refl, List, [], ◌∷◌, true, String, Option, none, some, All, Any, inl, lookup,
  insert, arith,
}
use cosmoguard.Go.{str, itoa}
use cosmoguard.JsonRpc.Msg.{JsonRpcMsg}
use cosmoguard.Cache.{found}
use cosmoguard.Cache.Redis.{RedisClient, MsgPack, bytes, nil_reply, redis_cache}
use cosmoguard.Cache.Redis.Laws.{Holds, RoundTrips, redis_cache-Keeps}
use cosmoguard.HttpProxy.Caching.{Keeps}
use cosmoguard.Util.UniqueId
use cosmoguard.Ws.Upstream.{
  asking, Call, connecting, reading, resubmitting, awaiting, handing, Manager, msg_id, register,
  begin_call, submit,
}
use cosmoguard.Ws.Upstream.Cosmos.{
  CosmosManager, after_timeout, leave_select, new_manager, on_upstream_message,
  subscription_request, Step, connected, resubmitted, resubmit, received, called, make_request,
  Reach, here, next,
}
use cosmoguard.Ws.Upstream.Cosmos.Laws.{Reach-handing}
use cosmoguard.Ws.Upstream.Cosmos.Stuck.{reconnect-stuck, late_response-blocks}
use cosmoguard.Tests.Samples.{message}

abbrev status : JsonRpcMsg
status = message "status" 7

abbrev started : CosmosManager
started = record new_manager { manager = record (new_manager.manager) { loop = reading } }

abbrev call : Call
call = record { id = "6"; chan = 0; req = status; purpose = asking }

abbrev response : JsonRpcMsg
response = record (message "" 0) { id = str "6" }

-- The call waits, and its response was read.
abbrev waiting : CosmosManager
waiting = record started {
  manager = begin_call "6" status asking (record (started.manager) { ids = ("6", true) ∷ [] });
}

abbrev arrived : CosmosManager
arrived = record waiting { manager = record (waiting.manager) { loop = handing 0 response } }

drawn : UniqueId.id (6 ∷ []) [] ≡ some (("6", true) ∷ [], "6")
unfolding UniqueId.id lookup insert itoa
drawn = refl

start_reading : Reach new_manager started
start_reading = next (next here (connected [] refl Perm.nil)) (resubmitted refl)

arrives : Step waiting arrived
unfolding begin_call submit register on_upstream_message lookup insert itoa
arrives = received response refl tt

to_arrived : Reach new_manager arrived
to_arrived = next (next start_reading (called (6 ∷ []) drawn (make_request status))) arrives

is_waiting : Any (λ x. x ≡ call) waiting.manager.calls
unfolding begin_call
is_waiting = inl refl

Reach-handing_example : msg_id response.id ≡ some "6"
Reach-handing_example = Reach-handing arrived call response to_arrived refl is_waiting

-- The call has gone before its response is handed over; another message is then sent.
abbrev gone : CosmosManager
gone = leave_select call arrived.manager.loop (after_timeout call) arrived

nobody_waits : All (λ c. c.chan ≢ 0) gone.manager.calls
unfolding begin_call
nobody_waits = tt

channel_made : 0 < gone.manager.next_chan
unfolding begin_call submit register
channel_made = omega arith

drawn_again : (u : UniqueId.UniqueId) × (UniqueId.id (9 ∷ []) gone.manager.ids ≡ some (u, "9"))
unfolding UniqueId.id lookup insert itoa begin_call submit register
drawn_again = (_, refl)

abbrev gone_on : CosmosManager
gone_on = record gone {
  manager = begin_call "9" status asking (record (gone.manager) { ids = drawn_again.0 });
}

late_response-blocks_example : gone_on.manager.loop ≡ handing 0 response
late_response-blocks_example =
    late_response-blocks gone gone_on 0 response refl channel_made nobody_waits
      (next here (called (9 ∷ []) drawn_again.1 (make_request status)))

-- The connection was lost while the subscription `heads` was open.
abbrev broken : CosmosManager
broken = record new_manager {
  manager = record (new_manager.manager) {
    loop = connecting;
    sub_by_param = ("heads", "5") ∷ [];
    sub_by_id = ("5", "heads") ∷ [];
  };
}

abbrev resubmits : Manager
resubmits = record (broken.manager) { loop = resubmitting (("heads", "5") ∷ []) }

abbrev awaits : CosmosManager
awaits = record broken {
  manager = record (submit "5" (subscription_request "subscribe" "heads" (str "5")) resubmits) {
    loop = awaiting "5" [];
  };
}

reconnect-stuck_example :
    (awaits.manager.loop ≢ reading)
    × ((ch : ℕ) (msg : JsonRpcMsg) → awaits.manager.loop ≢ handing ch msg)
    × (awaits.manager.sub_by_param ≡ broken.manager.sub_by_param)
reconnect-stuck_example =
    reconnect-stuck broken awaits refl (λ e. cc) tt
      (next (next here (connected (("heads", "5") ∷ []) refl (Perm.refl _))) (resubmit refl))

-- A server that remembers the last entry that it was given.
abbrev pub server : RedisClient
server = record {
  State = Option (String × List ℕ);
  set = λ k b ttl s. (some (k, b), none);
  get = λ k s. (s, elim s [ none ↦ nil_reply | some kb ↦ bytes kb.1 ]);
  exists = λ k s. (s, elim s [ none ↦ 0 | some kb ↦ 1 ], none);
}

server-Holds : Holds server
server-Holds k b ttl s = (omega arith, refl)

-- A number is encoded as one byte.
abbrev pub pack : MsgPack ℕ
pack = record {
  marshal = λ n. found (n ∷ []);
  unmarshal = λ b. elim b [ [] ↦ (0, some "EOF") | n ∷ rest ↦ (n, none) ];
}

pack-RoundTrips : RoundTrips pack
pack-RoundTrips n = (n ∷ [], refl, refl)

redis_cache-Keeps_example : Keeps (redis_cache server pack (λ (k : ℕ). itoa k) "lcd" 5)
redis_cache-Keeps_example =
    redis_cache-Keeps server pack (λ k. itoa k) "lcd" 5 server-Holds pack-RoundTrips
