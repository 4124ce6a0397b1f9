-- ===== src/Ws/Upstream/Cosmos.antt =====
-- `UpstreamConnManagerCosmos` of ws_upstream_cosmos.go as a step relation between the goroutine of
-- `Run` and the goroutines of the requests. Go leaves open which of them moves.
pub mod Laws
pub mod Stuck
use mathlib.Core.List.{Perm}
use cosmoguard.Prelude.{
  ℕ, ◌≡◌, ◌≢◌, ◌++◌, All, List, [], ◌∷◌, String, Option, none, some, lookup, insert, remove,
  is_some, Any, false, Bool, string_eq,
}
use cosmoguard.Go.{Value, nil, str, slice, item, empty}
use cosmoguard.JsonRpc.Msg.{JsonRpcMsg}
use cosmoguard.Util.UniqueId
use cosmoguard.Util.UniqueId.{UniqueId, release}
use cosmoguard.Ws.Upstream.{
  Purpose, asking, subscribing, unsubscribing, Call, Loop, connecting, reading, resubmitting,
  awaiting, handing, Manager, msg_id, Route, dropped, notified, respond, after_message, submit,
  begin_call, fail_call, register, without,
}

-- What a goroutine has still to do when it has its response or has given up: one write each, of
-- `respMap`, of `IdGen`, and of the two maps of the subscriptions.
pub data Todo : Type 0 where
  drop free : (id : String) → Todo
  set_param : (param id : String) → Todo
  set_id : (id param : String) → Todo
  unset_id : (id : String) → Todo
  unset_param : (param : String) → Todo

-- The manager; the goroutines that have left the `select` of `makeRequestWithID`, each with what it has
-- to do; and the channels that the loop has closed.
pub record CosmosManager : Type 0 where
  pub manager : Manager
  pub pending : List (List Todo)
  pub closed_chans : List ℕ

-- `CosmosUpstreamConnManager`, before `Run`.
abbrev pub new_manager : CosmosManager
new_manager = record {
  manager = record {
    loop = connecting;
    ids = [];
    resp_map = [];
    sub_by_id = [];
    sub_by_param = [];
    calls = [];
    next_chan = 0;
    sent = [];
  };
  pending = [];
  closed_chans = [];
}

-- `onUpstreamMessage`: a response to a request first, then a notification of a subscription.
unfoldable pub on_upstream_message : JsonRpcMsg → Manager → Route
on_upstream_message msg m = elim (msg_id msg.id) [
  | none ↦ dropped
  | some i ↦ elim (lookup i m.resp_map) [
    | some chan ↦ respond chan
    | none ↦ elim (lookup i m.sub_by_id) [ some param ↦ notified msg | none ↦ dropped ]
  ]
]

unfoldable pub has_subscription : String → Manager → Bool
has_subscription param m = is_some (lookup param m.sub_by_param)

-- The message of `subscribeWithID`, whose `id` is set again when it is sent, and of `Unsubscribe`.
abbrev pub subscription_request : String → String → Value → JsonRpcMsg
subscription_request method param id = record {
  version = "2.0";
  id = id;
  method = method;
  params = slice (item (str param) empty);
  result = nil;
  error = none;
}

-- What follows the response, whatever it says: `MakeRequest` releases its id, `subscribeWithID` keeps it,
-- and `Unsubscribe` goes on after `MakeRequest`.
unfoldable pub after_response : Call → List Todo
after_response c = elim c.purpose [
  | asking ↦ drop c.id ∷ free c.id ∷ []
  | subscribing param ↦ drop c.id ∷ set_param param c.id ∷ set_id c.id param ∷ []
  | unsubscribing sub param ↦
      drop c.id ∷ free c.id ∷ unset_id sub ∷ unset_param param ∷ free sub ∷ []
]

-- What follows the timeout, whatever the call was made for.
abbrev pub after_timeout : Call → List Todo
after_timeout c = drop c.id ∷ free c.id ∷ []

unfoldable pub perform : Todo → Manager → Manager
perform (drop id) m = record m { resp_map = remove id m.resp_map }
perform (free id) m = record m { ids = release id m.ids }
perform (set_param param id) m = record m { sub_by_param = insert param id m.sub_by_param }
perform (set_id id param) m = record m { sub_by_id = insert id param m.sub_by_id }
perform (unset_id id) m = record m { sub_by_id = remove id m.sub_by_id }
perform (unset_param param) m = record m { sub_by_param = remove param m.sub_by_param }

-- A call leaves its `select`.
abbrev pub leave_select : Call → Loop → List Todo → CosmosManager → CosmosManager
leave_select c loop todo s = record s {
  manager = record (s.manager) { loop = loop; calls = without c.chan s.manager.calls };
  pending = todo ∷ s.pending;
}

-- To send on a closed channel panics, and ends the program.
abbrev pub CanSend : Route → List ℕ → Type 0
CanSend (respond chan) closed_chans = All (λ ch. ch ≢ chan) closed_chans
CanSend _ closed_chans = Unit

-- `u.subByID[id]` is the empty text for an unknown id.
abbrev or_empty : Option String → String
or_empty none = ""
or_empty (some param) = param

-- What a goroutine may ask for: the message, what it is for, and the guard of `Subscribe`.
pub data Asks (m : Manager) (id : String) : JsonRpcMsg → Purpose → Type 0 where
  make_request : (req : JsonRpcMsg) → Asks m id req asking
  subscribe :
      (param : String)
      → has_subscription param m ≡ false
      → Asks m id (subscription_request "subscribe" param (str id)) (subscribing param)
  unsubscribe :
      (sub param : String)
      → or_empty (lookup sub m.sub_by_id) ≡ param
      → Asks m id (subscription_request "unsubscribe" param nil) (unsubscribing sub param)

-- To close a socket is taken to succeed; a call may be begun at any time. To register a call, to send
-- its message and to wait is one step, and the loop goes over the subscriptions that there were when it
-- was connected.
pub data Step (s : CosmosManager) : CosmosManager → Type 0 where
  -- The loop of `Run`.
  connect_failed : s.manager.loop ≡ connecting → Step s s
  connected :
      (subs : List (String × String))
      → s.manager.loop ≡ connecting
      → Perm subs s.manager.sub_by_param
      → Step s (record s { manager = record (s.manager) { loop = resubmitting subs } })
  resubmit :
      {param id : String} {left : List (String × String)}
      → s.manager.loop ≡ resubmitting ((param, id) ∷ left)
      → Step s (record s {
        manager = record (submit id (subscription_request "subscribe" param (str id)) s.manager) {
          loop = awaiting id left;
        };
      })
  resubmit_unsent :
      {param id : String} {left : List (String × String)}
      → s.manager.loop ≡ resubmitting ((param, id) ∷ left)
      → Step s (record s { manager = record (fail_call id s.manager) { loop = connecting } })
  resubmit_timed_out :
      {id : String} {left : List (String × String)}
      → s.manager.loop ≡ awaiting id left
      → Step s (record s {
        manager = record (s.manager) {
          loop = connecting;
          resp_map = remove id s.manager.resp_map;
          ids = release id s.manager.ids;
        };
      })
  resubmitted :
      s.manager.loop ≡ resubmitting []
      → Step s (record s { manager = record (s.manager) { loop = reading } })
  received :
      (msg : JsonRpcMsg)
      → s.manager.loop ≡ reading
      → CanSend (on_upstream_message msg s.manager) s.closed_chans
      → Step s (record s {
        manager = record (s.manager) {
          loop = after_message (on_upstream_message msg s.manager) msg;
        };
      })
  unread : s.manager.loop ≡ reading → Step s s
  closed :
      s.manager.loop ≡ reading
      → Step s (record s { manager = record (s.manager) { loop = connecting } })
  -- The send of `Run` meets the receive of a call that waits, and `Run` closes the channel.
  handed :
      (c : Call) {msg : JsonRpcMsg}
      → s.manager.loop ≡ handing c.chan msg
      → Any (λ x. x ≡ c) s.manager.calls
      → Step s (record (leave_select c reading (after_response c) s) {
        closed_chans = c.chan ∷ s.closed_chans;
      })
  -- The other goroutines.
  called :
      {id : String} {ids : UniqueId} {req : JsonRpcMsg} {purpose : Purpose} (draws : List ℕ)
      → UniqueId.id draws s.manager.ids ≡ some (ids, id)
      → Asks s.manager id req purpose
      → Step s (record s { manager = begin_call id req purpose (record (s.manager) { ids = ids }) })
  unsent :
      {id : String} {ids : UniqueId} {req : JsonRpcMsg} {purpose : Purpose} (draws : List ℕ)
      → UniqueId.id draws s.manager.ids ≡ some (ids, id)
      → Asks s.manager id req purpose
      → Step s (record s {
        manager = register id (record (s.manager) { ids = ids });
        pending = (free id ∷ []) ∷ s.pending;
      })
  timed_out :
      (c : Call)
      → Any (λ x. x ≡ c) s.manager.calls
      → Step s (leave_select c s.manager.loop (after_timeout c) s)
  moved :
      (before after : List (List Todo)) (act : Todo) (rest : List Todo)
      → s.pending ≡ before ++ (act ∷ rest) ∷ after
      → Step s (record s { manager = perform act s.manager; pending = before ++ rest ∷ after })

pub data Reach (s : CosmosManager) : CosmosManager → Type 0 where
  here : Reach s s
  next : {t u : CosmosManager} → Reach s t → Step t u → Reach s u
