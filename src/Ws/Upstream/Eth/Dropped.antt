-- ===== src/Ws/Upstream/Eth/Dropped.antt =====
-- The calls that wait while the connection is made anew: `resetAll` of ws_upstream_eth.go.
use cosmoguard.Prelude.{
  ℕ, ◌<◌, ◌≡◌, ◌≢◌, sym, ap, ◌∙◌, String, Option, some, lookup, insert, remove, lookup-insert,
  lookup-remove, All-mem, Any, arith, nat_eq, string_eq, subst, List,
}
use cosmoguard.Go.{ok, ok-injective, >>=-eq-ok}
use cosmoguard.JsonRpc.Msg.{JsonRpcMsg}
use cosmoguard.Ws.Upstream.{
  Call, Loop, handing, Manager, Route, dropped, notified, respond, after_message, submit,
  begin_call, fail_call, time_out, take_response,
}
use cosmoguard.Ws.Upstream.Wired.{Owns}
use cosmoguard.Ws.Upstream.Eth.{
  by_purpose, on_upstream_message, finish_call, re_submit_subscriptions, after_connect, reset_all,
}
use cosmoguard.Ws.Upstream.Eth.Run.{
  EthManager, new_eth_manager, with_manager, EthStep, connect_failed, connected, restarted,
  received, unread, closed, handed, called, unsent, refused, timed_out, EthReach, here, next,
}
use cosmoguard.Ws.Upstream.Eth.Handing.{
  Aims, by_message-Aims, by_purpose-SameWires, new_eth_manager-Inv, EthReach-Inv,
}

-- No entry of `respMap` leads to the channel.
abbrev Absent : ℕ → List (String × ℕ) → Type 0
Absent ch resp = (i : String) → lookup i resp ≢ some ch

-- The channel is an old one, which the loop can neither find nor send on.
record Drops (ch : ℕ) (m : Manager) : Type 0 where
  old : ch < m.next_chan
  absent : Absent ch m.resp_map
  idle : (msg : JsonRpcMsg) → m.loop ≢ handing ch msg

Absent-insert :
    (ch n : ℕ) (id : String) (resp : List (String × ℕ))
    → ch < n
    → Absent ch resp
    → Absent ch (insert id n resp)
Absent-insert ch n id resp old absent i h = ground (arith, lookup-insert id i n resp, absent i, old)

Absent-remove :
    (ch : ℕ) (id : String) (resp : List (String × ℕ)) → Absent ch resp → Absent ch (remove id resp)
Absent-remove ch id resp absent i h = ground (arith, lookup-remove id i resp, absent i)

received-Drops :
    (ch : ℕ) (m : Manager) (msg x : JsonRpcMsg) (route : Route)
    → Absent ch m.resp_map
    → Aims m msg.id route
    → after_message route msg ≢ handing ch x
received-Drops ch m msg x dropped absent a h = cc
received-Drops ch m msg x (notified y) absent a h = cc
received-Drops ch m msg x (respond chan) absent (i, e, k) h =
    absent i (k ∙ ap some (handing-injective h))
  where
    handing-injective :
        {a b : ℕ} {p q : JsonRpcMsg} → ◌≡◌ {A = Loop} (handing a p) (handing b q) → a ≡ b
    handing-injective e = cc

finish_call-Drops :
    (ch : ℕ) (c : Call) (resp : JsonRpcMsg) (m n : Manager)
    → finish_call c resp m ≡ ok n
    → Drops ch m
    → (ch < n.next_chan) × Absent ch n.resp_map
unfolding finish_call take_response
finish_call-Drops ch c resp m n e v =
    let (k, e1, e2) = >>=-eq-ok (by_purpose c.purpose resp (take_response c m)) _ e in
    let same = by_purpose-SameWires c.purpose resp (take_response c m) k e1 in
    subst (λ (x : Manager). (ch < x.next_chan) × Absent ch x.resp_map) (ok-injective e2)
      (rw (sym same.resp, sym same.chan) (v.old, Absent-remove ch c.id m.resp_map v.absent))

EthStep-Drops : {s t : EthManager} (ch : ℕ) → EthStep s t → Drops ch s.manager → Drops ch t.manager
unfolding submit begin_call fail_call time_out after_connect re_submit_subscriptions reset_all
    on_upstream_message lookup
EthStep-Drops ch (connect_failed e n) v = v
EthStep-Drops ch (connected e n) v = v
EthStep-Drops ch (restarted subscribe e n) v = record {
  old = v.old;
  absent = λ i h. cc;
  idle = λ msg h. cc;
}
EthStep-Drops {s} ch (received {route} msg e r) v = record {
  old = v.old;
  absent = v.absent;
  idle = λ x.
      received-Drops ch s.manager msg x route v.absent
        (by_message-Aims s.manager msg msg.id route r);
}
EthStep-Drops ch (unread e) v = v
EthStep-Drops ch (closed e) v = record { old = v.old; absent = v.absent; idle = λ msg h. cc }
EthStep-Drops {s} ch (handed c {msg} {m} e at f) v =
    let (old, absent) = finish_call-Drops ch c msg s.manager m f v in
    record { old = old; absent = absent; idle = λ x h. cc }
EthStep-Drops {s} ch (called {id} draws e asks n) v = record {
  old = omega (arith, v.old);
  absent = Absent-insert ch s.manager.next_chan id s.manager.resp_map v.old v.absent;
  idle = v.idle;
}
EthStep-Drops {s} ch (unsent {id} draws e asks n) v = record {
  old = omega (arith, v.old);
  absent = Absent-insert ch s.manager.next_chan id s.manager.resp_map v.old v.absent;
  idle = v.idle;
}
EthStep-Drops ch (refused draws e asks n) v = record {
  old = v.old;
  absent = v.absent;
  idle = v.idle;
}
EthStep-Drops {s} ch (timed_out c at) v = record {
  old = v.old;
  absent = Absent-remove ch c.id s.manager.resp_map v.absent;
  idle = v.idle;
}

EthReach-Drops :
    {s t : EthManager} (ch : ℕ) → EthReach s t → Drops ch s.manager → Drops ch t.manager
EthReach-Drops ch here v = v
EthReach-Drops ch (next r st) v = EthStep-Drops ch st (EthReach-Drops ch r v)

-- The state in which the loop reads from a connection that was made anew.
abbrev pub back : (String → Manager → Manager × Option String) → EthManager → EthManager
back subscribe s = with_manager s (after_connect subscribe s.manager).0

-- After the connection is made anew while a call waits, the loop is in no state that follows at a send
-- to the channel of this call, in whatever order the goroutines move and whatever upstream sends.
pub after_connect-drops :
    (subscribe : String → Manager → Manager × Option String) (s t : EthManager) (c : Call)
    → EthReach new_eth_manager s
    → Any (λ x. x ≡ c) s.manager.calls
    → EthReach (back subscribe s) t
    → (msg : JsonRpcMsg) → t.manager.loop ≢ handing c.chan msg
unfolding after_connect re_submit_subscriptions reset_all lookup
after_connect-drops subscribe s t c start at r =
    let inv = EthReach-Inv new_eth_manager-Inv start in
    let owns =
      All-mem (Owns s.manager.resp_map s.manager.next_chan) s.manager.calls c inv.0.owned at in
    (EthReach-Drops c.chan r (record { old = owns.0; absent = λ i h. cc; idle = λ msg h. cc })).idle
