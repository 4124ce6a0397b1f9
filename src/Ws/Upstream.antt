-- ===== src/Ws/Upstream.antt =====
-- What the two managers of a connection to upstream share: ws_upstream_cosmos.go and
-- ws_upstream_eth.go. Goroutines are calls that stand between two points of `makeRequestWithID`; a
-- channel of `respMap` is a number of its own.
pub mod Cosmos
pub mod Eth
pub mod Wired
pub mod Ids
use cosmoguard.Prelude.{
  ℕ, suc, ◌+◌, not, Bool, List, [], ◌∷◌, String, Option, none, some, lookup, insert, remove, filter,
  nat_eq, string_eq, ◌==◌,
}
use cosmoguard.Go.{Value, str, int, itoa}
use cosmoguard.JsonRpc.Msg.{JsonRpcMsg, clone_with_id}
use cosmoguard.Util.UniqueId.{UniqueId, release}

-- An `UpstreamConnManagerConstructor`: `CosmosUpstreamConnManager` or `EthUpstreamConnManager`.
pub data UpstreamKind : Type 0 where
  cosmos eth : UpstreamKind

-- A connection as its constructor leaves it: not yet connected, to this `ws` URL.
pub record Unconnected : Type 0 where
  pub kind : UpstreamKind
  pub host : String
  pub path : String

-- What a call of `makeRequestWithID` is made for.
pub data Purpose : Type 0 where
  asking : Purpose
  subscribing : (param : String) → Purpose
  unsubscribing : (sub param : String) → Purpose

-- A goroutine that waits for the response to its request.
pub record Call : Type 0 where
  pub id : String
  pub chan : ℕ
  pub req : JsonRpcMsg
  pub purpose : Purpose

-- Where the loop of `Run` stands. `handing` is the send `wc <- msg`, which waits for a receiver;
-- `resubmitting` is the loop over the subscriptions, and `awaiting` its wait for a response.
pub data Loop : Type 0 where
  connecting reading : Loop
  resubmitting : (left : List (String × String)) → Loop
  awaiting : (id : String) (left : List (String × String)) → Loop
  handing : (chan : ℕ) (msg : JsonRpcMsg) → Loop

-- The fields of a manager, with the calls that wait; `next_chan` numbers the channels made so far,
-- and `sent` holds the messages that the socket took, the last first.
pub record Manager : Type 0 where
  pub loop : Loop
  pub ids : UniqueId
  pub resp_map : List (String × ℕ)
  pub sub_by_id : List (String × String)
  pub sub_by_param : List (String × String)
  pub calls : List Call
  pub next_chan : ℕ
  pub sent : List JsonRpcMsg

-- The id of a message as a text; only a text or an `int` will do.
abbrev pub msg_id : Value → Option String
msg_id (str s) = some s
msg_id (int n) = some (itoa n)
msg_id _ = none

-- What becomes of a message of upstream.
pub data Route : Type 0 where
  dropped : Route
  notified : (msg : JsonRpcMsg) → Route
  respond : (chan : ℕ) → Route

-- Where `Run` goes on after a message.
abbrev pub after_message : Route → JsonRpcMsg → Loop
after_message (respond chan) msg = handing chan msg
after_message dropped msg = reading
after_message (notified _) msg = reading

abbrev pub without : ℕ → List Call → List Call
without chan = filter (λ c. not (c.chan == chan))

-- `u.respMap[id] = make(chan *JsonRpcMsg)`.
unfoldable pub register : String → Manager → Manager
register id m = record m {
  resp_map = insert id m.next_chan m.resp_map;
  next_chan = m.next_chan + 1;
}

-- A request whose `SendMsg` succeeded.
unfoldable pub submit : String → JsonRpcMsg → Manager → Manager
unfolding register
submit id req m = record (register id m) { sent = clone_with_id req (str id) ∷ m.sent }

-- The same in a goroutine of its own, which waits.
unfoldable pub begin_call : String → JsonRpcMsg → Purpose → Manager → Manager
unfolding submit
begin_call id req purpose m = record (submit id req m) {
  calls = record { id = id; chan = m.next_chan; req = req; purpose = purpose } ∷ m.calls;
}

-- A request whose `SendMsg` failed: its entry stays in `respMap`, and its id is released.
unfoldable pub fail_call : String → Manager → Manager
unfolding register
fail_call id m = record (register id m) { ids = release id m.ids }

-- The timeout.
unfoldable pub time_out : Call → Manager → Manager
time_out c m = record m {
  resp_map = remove c.id m.resp_map;
  calls = without c.chan m.calls;
  ids = release c.id m.ids;
}

-- The response is taken from the channel.
unfoldable pub take_response : Call → Manager → Manager
take_response c m = record m { resp_map = remove c.id m.resp_map; calls = without c.chan m.calls }
