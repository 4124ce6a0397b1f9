-- ===== src/Ws/Upstream/Eth.antt =====
-- `UpstreamConnManagerEth` of ws_upstream_eth.go, where it differs from the manager for Cosmos.
pub mod Laws
pub mod Run
pub mod Handing
pub mod Dropped
use cosmoguard.Prelude.{
  ℕ, List, [], ◌∷◌, Bool, String, Option, none, some, lookup, insert, remove, is_some, string_eq,
  if◌then◌else◌,
}
use cosmoguard.Go.{
  Result, ok, panic, ◌>>=◌, Value, nil, str, dict, slice, item, empty, get, bad_type_assertion,
}
use cosmoguard.JsonRpc.Msg.{JsonRpcMsg}
use cosmoguard.Util.UniqueId.{release}
use cosmoguard.Ws.Upstream.{
  Purpose, asking, subscribing, unsubscribing, Call, reading, Manager, msg_id, Route, dropped,
  notified, respond, take_response,
}

-- A message with no id, by its parameter `subscription`; two type assertions can fail.
notification : JsonRpcMsg → Option Value → Manager → Result Route
notification msg none m = ok dropped
notification msg (some (str sub)) m = elim (lookup sub m.sub_by_id) [
  | some query ↦ ok (notified (record msg { id = str sub }))
  | none ↦ ok dropped
]
notification msg (some _) m = panic bad_type_assertion

by_params : JsonRpcMsg → Value → Manager → Result Route
unfolding notification
by_params msg nil m = ok dropped
by_params msg (dict params) m = notification msg (get "subscription" params) m
by_params msg _ m = panic bad_type_assertion

-- A message with an id can only be a response.
by_id : Option String → Manager → Route
by_id none m = dropped
by_id (some i) m = elim (lookup i m.resp_map) [ some chan ↦ respond chan | none ↦ dropped ]

pub by_message : Value → JsonRpcMsg → Manager → Result Route
unfolding by_params by_id
by_message nil msg m = by_params msg msg.params m
by_message id msg m = ok (by_id (msg_id id) m)

unfoldable pub on_upstream_message : JsonRpcMsg → Manager → Result Route
unfolding by_message
on_upstream_message msg m = by_message msg.id msg m

unfoldable pub has_subscription : String → Manager → Bool
has_subscription sub m = is_some (lookup sub m.sub_by_param)

-- `u.subByID[id]` is the empty text for an unknown id.
abbrev or_empty : Option String → String
or_empty none = ""
or_empty (some param) = param

-- The end of `subscribeWithID`: the result must be a text, the id of the subscription.
record_result : String → Value → Manager → Result Manager
record_result param (str sub) m = ok (record m {
  sub_by_param = insert param sub m.sub_by_param;
  sub_by_id = insert sub param m.sub_by_id;
})
record_result param _ m = panic bad_type_assertion

pub by_purpose : Purpose → JsonRpcMsg → Manager → Result Manager
unfolding record_result
by_purpose asking resp m = ok m
by_purpose (subscribing param) resp m = record_result param resp.result m
by_purpose (unsubscribing sub _) resp m = ok (record m {
  sub_by_param = remove (or_empty (lookup sub m.sub_by_id)) m.sub_by_param;
  sub_by_id = remove sub m.sub_by_id;
})

-- What a call does with the response; its id is released in the end, whatever it was made for.
unfoldable pub finish_call : Call → JsonRpcMsg → Manager → Result Manager
unfolding take_response by_purpose
finish_call c resp m = do
  m' ← by_purpose c.purpose resp (take_response c m)
  ok (record m' { ids = release c.id m'.ids })

unfoldable pub reset_all : Manager → Manager
reset_all m = record m { sub_by_param = []; sub_by_id = []; resp_map = [] }

-- The loop of `reSubmitSubscriptions`, with the first error; `subscribe` is `Subscribe` for a
-- parameter that is not subscribed.
unfoldable pub re_submit_subscriptions :
    (String → Manager → Manager × Option String)
    → List (String × String)
    → Manager
    → Manager × Option String
re_submit_subscriptions subscribe [] m = (m, none)
re_submit_subscriptions subscribe ((param, _) ∷ subs) m =
    if has_subscription param m
    then (m, some "subscription already exists")
    else (let (m', err) = subscribe param m in
        let rest = re_submit_subscriptions subscribe subs m' in
        elim err [ some e ↦ (m', some e) | none ↦ rest ])

-- What `Run` does once it is connected, up to its first `ReceiveMsg`.
unfoldable pub after_connect :
    (String → Manager → Manager × Option String) → Manager → Manager × Option String
unfolding reset_all
after_connect subscribe m =
    let m' = reset_all m in
    let (m2, err) = re_submit_subscriptions subscribe m'.sub_by_param m' in
    (elim err [ some e ↦ m2 | none ↦ record m2 { loop = reading } ], err)
