-- ===== src/Ws/Upstream/Eth/Handing.antt =====
-- Which call gets a response: ws_upstream_eth.go.
use cosmoguard.Prelude.{
  ◌≡◌, refl, sym, ap, ◌∙◌, String, Option, none, some, lookup, All-map, Any, Option-cases, inl, inr,
  subst, string_eq,
}
use cosmoguard.Go.{ok, ok-injective, >>=-eq-ok, Value, nil, str, dict, get}
use cosmoguard.JsonRpc.Msg.{JsonRpcMsg}
use cosmoguard.Ws.Upstream.{
  Purpose, asking, subscribing, unsubscribing, Call, handing, Manager, Route, dropped, notified,
  respond, after_message, msg_id, submit, begin_call, fail_call, time_out, take_response,
}
use cosmoguard.Ws.Upstream.Wired.{
  Owns, Wired, Hands, Inv, Wired-insert, Wired-call, Wired-remove, Wired-without, Wired-reset,
  Hands-later, Hands-call, Hands-without, handing_id,
}
use cosmoguard.Ws.Upstream.Eth.{
  by_purpose, record_result, by_message, by_params, by_id, notification, on_upstream_message,
  finish_call, re_submit_subscriptions, after_connect, reset_all,
}
use cosmoguard.Ws.Upstream.Eth.Run.{
  EthManager, new_eth_manager, EthStep, connect_failed, connected, restarted, received, unread,
  closed, handed, called, unsent, refused, timed_out, EthReach, here, next,
}

-- The loop waits to hand over a message only if the message has an id, which stands for the channel.
abbrev pub Aims : Manager → Value → Route → Type 0
Aims m id (respond chan) = (i : String) × (msg_id id ≡ some i) × (lookup i m.resp_map ≡ some chan)
Aims m id _ = Unit

by_id-Aims : (m : Manager) (id : Value) → Aims m id (by_id (msg_id id) m)
unfolding by_id
by_id-Aims m id = elim (Option-cases (msg_id id)) [
  | inl n ↦ rw (n, by_id) tt
  | inr (i, e) ↦ elim (Option-cases (lookup i m.resp_map)) [
    | inl n ↦ rw (e, n, by_id) tt
    | inr (chan, k) ↦ rw (e, k, by_id) (i, e, k)
  ]
]

notification-Aims :
    (m : Manager) (msg : JsonRpcMsg) (o : Option Value) (route : Route)
    → notification msg o m ≡ ok route
    → Aims m nil route
unfolding notification
notification-Aims m msg none route e = subst (Aims m nil) (ok-injective e) tt
notification-Aims m msg (some (str sub)) route e = elim (Option-cases (lookup sub m.sub_by_id)) [
  | inl n ↦ subst (Aims m nil) (ok-injective (rw (n, notification) at e)) tt
  | inr (query, k) ↦ subst (Aims m nil) (ok-injective (rw (k, notification) at e)) tt
]
notification-Aims m msg (some v) route e = absurd (cc)

by_params-Aims :
    (m : Manager) (msg : JsonRpcMsg) (params : Value) (route : Route)
    → by_params msg params m ≡ ok route
    → Aims m nil route
unfolding by_params
by_params-Aims m msg nil route e = subst (Aims m nil) (ok-injective e) tt
by_params-Aims m msg (dict params) route e =
    notification-Aims m msg (get "subscription" params) route e
by_params-Aims m msg v route e = absurd (cc)

pub by_message-Aims :
    (m : Manager) (msg : JsonRpcMsg) (id : Value) (route : Route)
    → by_message id msg m ≡ ok route
    → Aims m id route
unfolding by_message
by_message-Aims m msg nil route e = by_params-Aims m msg msg.params route e
by_message-Aims m msg v route e = subst (Aims m v) (ok-injective e) (by_id-Aims m v)

received-Hands :
    (m : Manager) (msg : JsonRpcMsg) (route : Route)
    → Wired m.resp_map m.next_chan m.calls
    → Aims m msg.id route
    → Hands (after_message route msg) m.next_chan m.calls
received-Hands m msg dropped w a = tt
received-Hands m msg (notified x) w a = tt
received-Hands m msg (respond chan) w (i, e, k) = (
  w.made i chan k,
  i,
  e,
  All-map (Owns m.resp_map m.next_chan) (λ c. c.chan ≡ chan → c.id ≡ i) m.calls
      (λ c o same. sym (o.1 i (k ∙ ap some (sym same)))) w.owned,
)

-- What a call does with the response leaves the channels.
pub record SameWires (m n : Manager) : Type 0 where
  pub resp : m.resp_map ≡ n.resp_map
  pub chan : m.next_chan ≡ n.next_chan
  pub calls : m.calls ≡ n.calls

pub by_purpose-SameWires :
    (p : Purpose) (resp : JsonRpcMsg) (m n : Manager) → by_purpose p resp m ≡ ok n → SameWires m n
unfolding by_purpose
by_purpose-SameWires asking resp m n e =
    subst (SameWires m) (ok-injective e) (record { resp = refl; chan = refl; calls = refl })
by_purpose-SameWires (subscribing param) resp m n e = by_result resp.result e
  where
    by_result : (v : Value) → record_result param v m ≡ ok n → SameWires m n
    by_result (str sub) h =
        subst (SameWires m) (ok-injective h) (record { resp = refl; chan = refl; calls = refl })
    by_result v h = absurd (cc)
by_purpose-SameWires (unsubscribing sub param) resp m n e =
    subst (SameWires m) (ok-injective e) (record { resp = refl; chan = refl; calls = refl })

finish_call-Wired :
    (c : Call) (resp : JsonRpcMsg) (m n : Manager)
    → finish_call c resp m ≡ ok n
    → Wired m.resp_map m.next_chan m.calls
    → Wired n.resp_map n.next_chan n.calls
unfolding finish_call take_response
finish_call-Wired c resp m n e w =
    let (k, e1, e2) = >>=-eq-ok (by_purpose c.purpose resp (take_response c m)) _ e in
    let same = by_purpose-SameWires c.purpose resp (take_response c m) k e1 in
    let taken = Wired-without (Wired-remove w c.id) c.chan in
    subst (λ x. Wired x.resp_map x.next_chan x.calls) (ok-injective e2)
      (rw (sym same.resp, sym same.chan, sym same.calls) taken)

-- Every step keeps the invariant.
EthStep-Inv : {s t : EthManager} → EthStep s t → Inv s.manager → Inv t.manager
unfolding submit begin_call fail_call time_out after_connect re_submit_subscriptions reset_all
    on_upstream_message
EthStep-Inv (connect_failed e n) v = v
EthStep-Inv (connected e n) v = v
EthStep-Inv (restarted subscribe e n) v = (Wired-reset v.0, tt)
EthStep-Inv {s} (received {route} msg e r) v =
    (v.0, received-Hands s.manager msg route v.0 (by_message-Aims s.manager msg msg.id route r))
EthStep-Inv (unread e) v = v
EthStep-Inv (closed e) v = (v.0, tt)
EthStep-Inv {s} (handed c {msg} {m} e at f) v = (finish_call-Wired c msg s.manager m f v.0, tt)
EthStep-Inv {s} (called {id} {ids} {req} {purpose} draws e asks n) v = (
  Wired-call v.0 id req purpose,
  Hands-call s.manager.loop s.manager.next_chan s.manager.calls _ refl v.1,
)
EthStep-Inv {s} (unsent {id} draws e asks n) v =
    (Wired-insert v.0 id, Hands-later s.manager.loop s.manager.next_chan s.manager.calls v.1)
EthStep-Inv (refused draws e asks n) v = v
EthStep-Inv {s} (timed_out c at) v = (
  Wired-without (Wired-remove v.0 c.id) c.chan,
  Hands-without s.manager.loop s.manager.next_chan c.chan s.manager.calls v.1,
)

pub new_eth_manager-Inv : Inv new_eth_manager.manager
unfolding lookup
new_eth_manager-Inv = (record { made = λ i ch h. absurd (cc); owned = tt }, tt)

pub EthReach-Inv : {s t : EthManager} → Inv s.manager → EthReach s t → Inv t.manager
EthReach-Inv v here = v
EthReach-Inv v (next r st) = EthStep-Inv st (EthReach-Inv v r)

-- In every state that the manager for Ethereum reaches, whatever the order of its goroutines and
-- however often the connection is lost and made anew, the message that the loop hands to a call that
-- waits carries the id of that call.
pub EthReach-handing :
    (s : EthManager) (c : Call) (msg : JsonRpcMsg)
    → EthReach new_eth_manager s
    → s.manager.loop ≡ handing c.chan msg
    → Any (λ x. x ≡ c) s.manager.calls
    → msg_id msg.id ≡ some c.id
EthReach-handing s c msg r e at =
    handing_id s.manager.loop s.manager.next_chan s.manager.calls c msg e
      (EthReach-Inv new_eth_manager-Inv r).1 at
