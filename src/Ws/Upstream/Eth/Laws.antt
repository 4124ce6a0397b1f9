-- ===== src/Ws/Upstream/Eth/Laws.antt =====
-- Notifications of the manager for Ethereum, ws_upstream_eth.go.
use cosmoguard.Prelude.{
  ◌≡◌, ◌≢◌, refl, ap, ◌∙◌, [], String, Option, none, some, lookup, insert, lookup-insert,
  Option-cases, inl, inr, beq_refl, string_eq,
}
use cosmoguard.Go.{Result, ok, ok-injective, ◌>>=◌, Value, nil, str, dict, Fields, get}
use cosmoguard.JsonRpc.Msg.{JsonRpcMsg}
use cosmoguard.Ws.Upstream.{
  Call, subscribing, reading, Manager, msg_id, Route, notified, take_response,
}
use cosmoguard.Util.UniqueId.{release}
use cosmoguard.Ws.Upstream.Eth.{
  by_purpose, record_result, by_message, by_params, by_id, notification, on_upstream_message,
  finish_call, re_submit_subscriptions, after_connect,
}

known_lem :
    (msg : JsonRpcMsg) (sub query : String) (m : Manager)
    → lookup sub m.sub_by_id ≡ some query
    → notification msg (some (str sub)) m ≡ ok (notified (record msg { id = str sub }))
unfolding notification
known_lem msg sub query m k = rw (k, notification) refl

-- A subscription that upstream has answered with an id is notified under that id.
pub finish_call-on_upstream_message :
    (c : Call) (param sub : String) (resp msg : JsonRpcMsg) (m : Manager) (params : Fields)
    → c.purpose ≡ subscribing param
    → resp.result ≡ str sub
    → msg.id ≡ nil
    → msg.params ≡ dict params
    → get "subscription" params ≡ some (str sub)
    → (n : Manager) × (finish_call c resp m ≡ ok n)
      × (on_upstream_message msg n ≡ ok (notified (record msg { id = str sub })))
unfolding finish_call on_upstream_message
finish_call-on_upstream_message c param sub resp msg m params p r i q g =
    let t = take_response c m in
    let rest : Manager → Result Manager = λ k. ok (record k { ids = release c.id k.ids }) in
    let n : Manager = record t {
      sub_by_param = insert param sub t.sub_by_param;
      sub_by_id = insert sub param t.sub_by_id;
      ids = release c.id t.ids;
    } in
    (
      n,
      ap (λ x. by_purpose x resp t >>= rest) p ∙ ap (λ v. record_result param v t >>= rest) r,
      ap (λ v. by_message v msg n) i
          ∙ ap (λ v. by_params msg v n) q
          ∙ ap (λ o. notification msg o n) g
          ∙ known_lem msg sub param n
              (lookup-insert sub sub param t.sub_by_id ∙ rw (beq_refl sub) refl),
    )

module _ (m : Manager) (none_left : m.sub_by_id ≡ []) where
  unknown_notification :
      (msg x : JsonRpcMsg) (o : Option Value) → notification msg o m ≢ ok (notified x)
  unfolding notification lookup
  unknown_notification msg x none h = cc
  unknown_notification msg x (some (str sub)) h = let e = rw none_left at h in cc
  unknown_notification msg x (some v) h = cc

  unknown_params : (msg x : JsonRpcMsg) (v : Value) → by_params msg v m ≢ ok (notified x)
  unfolding by_params
  unknown_params msg x nil h = cc
  unknown_params msg x (dict params) h = unknown_notification msg x (get "subscription" params) h
  unknown_params msg x v h = cc

  response_only :
      (x : JsonRpcMsg) (o : Option String) → ◌≡◌ {A = Route} (by_id o m) (notified x) → ⊥
  unfolding by_id
  response_only x none h = cc
  response_only x (some i) h = elim (Option-cases (lookup i m.resp_map)) [
    | inl n ↦ let e = rw (n, by_id) at h in cc
    | inr (ch, k) ↦ let e = rw (k, by_id) at h in cc
  ]

  unknown_message : (msg x : JsonRpcMsg) (id : Value) → by_message id msg m ≢ ok (notified x)
  unfolding by_message
  unknown_message msg x nil h = unknown_params msg x msg.params h
  unknown_message msg x v h = response_only x (msg_id v) (ok-injective h)

-- Once a connection is made, none of the subscriptions is submitted to it, and no message of upstream
-- counts as a notification.
pub after_connect-silent :
    (subscribe : String → Manager → Manager × Option String) (m : Manager) (msg x : JsonRpcMsg)
    → let (n, err) = after_connect subscribe m in
      (n.loop ≡ reading)
      × (err ≡ none)
      × (n.sent ≡ m.sent)
      × (on_upstream_message msg n ≢ ok (notified x))
unfolding after_connect re_submit_subscriptions on_upstream_message
after_connect-silent subscribe m msg x =
    (refl, refl, refl, unknown_message (after_connect subscribe m).0 refl msg x msg.id)
