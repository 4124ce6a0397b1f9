-- ===== src/Ws/Upstream/Cosmos/Laws.antt =====
-- Which call gets a response: ws_upstream_cosmos.go.
use cosmoguard.Prelude.{
  ◌≡◌, refl, sym, ap, ◌∙◌, some, lookup, All-map, Any, Option-cases, nat_eq, string_eq, inl, inr,
}
use cosmoguard.JsonRpc.Msg.{JsonRpcMsg}
use cosmoguard.Ws.Upstream.{
  Call, handing, Manager, msg_id, submit, begin_call, fail_call, register, after_message,
}
use cosmoguard.Ws.Upstream.Wired.{
  Owns, Wired, Hands, Inv, Wired-insert, Wired-call, Wired-remove, Wired-without, Hands-later,
  Hands-call, Hands-without, handing_id,
}
use cosmoguard.Ws.Upstream.Cosmos.{
  CosmosManager, Todo, drop, free, set_param, set_id, unset_id, unset_param, perform, new_manager,
  on_upstream_message, Step, connect_failed, connected, resubmit, resubmit_unsent,
  resubmit_timed_out, resubmitted, received, unread, closed, handed, called, unsent, timed_out,
  moved, Reach, here, next,
}

-- A message that was read is handed to the calls with its id.
received-Hands :
    (msg : JsonRpcMsg) (m : Manager)
    → Wired m.resp_map m.next_chan m.calls
    → Hands (after_message (on_upstream_message msg m) msg) m.next_chan m.calls
unfolding on_upstream_message
received-Hands msg m w = elim (Option-cases (msg_id msg.id)) [
  | inl n ↦ rw (n, on_upstream_message) tt
  | inr (i, e) ↦ elim (Option-cases (lookup i m.resp_map)) [
    | inr (ch, k) ↦
        rw (e, k, on_upstream_message)
          (
            w.made i ch k,
            i,
            e,
            All-map (Owns m.resp_map m.next_chan) (λ c. c.chan ≡ ch → c.id ≡ i) m.calls
                (λ c o same. sym (o.1 i (k ∙ ap some (sym same)))) w.owned,
          )
    | inl n ↦ elim (Option-cases (lookup i m.sub_by_id)) [
      | inl n2 ↦ rw (e, n, n2, on_upstream_message) tt
      | inr (p, k) ↦ rw (e, n, k, on_upstream_message) tt
    ]
  ]
]

-- One write of a goroutine that has left its `select`.
perform-Inv : (act : Todo) (m : Manager) → Inv m → Inv (perform act m)
unfolding perform
perform-Inv (drop id) m v = (Wired-remove v.0 id, v.1)
perform-Inv (free id) m v = v
perform-Inv (set_param param id) m v = v
perform-Inv (set_id id param) m v = v
perform-Inv (unset_id id) m v = v
perform-Inv (unset_param param) m v = v

-- Every step keeps the invariant.
Step-Inv : {s t : CosmosManager} → Step s t → Inv s.manager → Inv t.manager
unfolding submit begin_call fail_call register
Step-Inv (connect_failed e) v = v
Step-Inv (connected subs e p) v = (v.0, tt)
Step-Inv (resubmit {id} e) v = (Wired-insert v.0 id, tt)
Step-Inv (resubmit_unsent {id} e) v = (Wired-insert v.0 id, tt)
Step-Inv (resubmit_timed_out {id} e) v = (Wired-remove v.0 id, tt)
Step-Inv (resubmitted e) v = (v.0, tt)
Step-Inv {s} (received msg e can) v = (v.0, received-Hands msg s.manager v.0)
Step-Inv (unread e) v = v
Step-Inv (closed e) v = (v.0, tt)
Step-Inv (handed c e at) v = (Wired-without v.0 c.chan, tt)
Step-Inv {s} (called {id} {ids} {req} {purpose} draws e asks) v = (
  Wired-call v.0 id req purpose,
  Hands-call s.manager.loop s.manager.next_chan s.manager.calls _ refl v.1,
)
Step-Inv {s} (unsent {id} draws e asks) v =
    (Wired-insert v.0 id, Hands-later s.manager.loop s.manager.next_chan s.manager.calls v.1)
Step-Inv {s} (timed_out c at) v = (
  Wired-without v.0 c.chan,
  Hands-without s.manager.loop s.manager.next_chan c.chan s.manager.calls v.1,
)
Step-Inv {s} (moved before after act rest e) v = perform-Inv act s.manager v

new_manager-Inv : Inv new_manager.manager
unfolding lookup
new_manager-Inv = (record { made = λ i ch h. absurd (cc); owned = tt }, tt)

Reach-Inv : {s t : CosmosManager} → Inv s.manager → Reach s t → Inv t.manager
Reach-Inv v here = v
Reach-Inv v (next r st) = Step-Inv st (Reach-Inv v r)

-- In every state that a manager reaches, whatever the order of its goroutines, the message that the
-- loop hands to a call that waits carries the id of that call.
pub Reach-handing :
    (s : CosmosManager) (c : Call) (msg : JsonRpcMsg)
    → Reach new_manager s
    → s.manager.loop ≡ handing c.chan msg
    → Any (λ x. x ≡ c) s.manager.calls
    → msg_id msg.id ≡ some c.id
Reach-handing s c msg r e at =
    handing_id s.manager.loop s.manager.next_chan s.manager.calls c msg e
      (Reach-Inv new_manager-Inv r).1 at
