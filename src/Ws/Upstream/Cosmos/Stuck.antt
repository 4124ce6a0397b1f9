-- ===== src/Ws/Upstream/Cosmos/Stuck.antt =====
-- When the loop of `Run` of ws_upstream_cosmos.go waits for good.
use mathlib.Core.List.{Perm}
use mathlib.Core.List.Perm
use cosmoguard.Prelude.{
  ℕ, ◌<◌, ◌≡◌, ◌≢◌, refl, sym, ◌∙◌, List, [], ◌∷◌, ◌++◌, String, All, All-mem, All-filter, arith,
  nat_eq, string_eq, subst,
}
use cosmoguard.JsonRpc.Msg.{JsonRpcMsg}
use cosmoguard.Ws.Upstream.{
  Loop, connecting, reading, resubmitting, awaiting, handing, Manager, submit, begin_call,
  fail_call, register,
}
use cosmoguard.Ws.Upstream.Cosmos.{
  CosmosManager, Todo, drop, free, set_param, set_id, unset_id, unset_param, perform, Step,
  connect_failed, connected, resubmit, resubmit_unsent, resubmit_timed_out, resubmitted, received,
  unread, closed, handed, called, unsent, timed_out, moved, Reach, here, next,
}

-- The loop is between a lost connection and the end of the resubmission, with a subscription left.
abbrev Outside : Loop → Type 0
Outside connecting = Unit
Outside (resubmitting []) = ⊥
Outside (resubmitting (s ∷ left)) = Unit
Outside (awaiting id left) = Unit
Outside reading = ⊥
Outside (handing ch msg) = ⊥

-- A write that leaves `subByParam` alone, and the goroutines that have only such writes to do.
abbrev pub Spares : Todo → Type 0
Spares (set_param param id) = ⊥
Spares (unset_param param) = ⊥
Spares _ = Unit

abbrev pub AllSpare : List (List Todo) → Type 0
AllSpare pending = All (All Spares) pending

abbrev Stuck : List (String × String) → CosmosManager → Type 0
Stuck subs s = Outside s.manager.loop × (s.manager.sub_by_param ≡ subs) × AllSpare s.pending

some_left : (xs subs : List (String × String)) → xs ≢ [] → Outside (resubmitting xs)
some_left [] subs h = h refl
some_left (x ∷ xs) subs h = tt

spared :
    (before after : List (List Todo)) (act : Todo) (rest : List Todo)
    → AllSpare (before ++ (act ∷ rest) ∷ after)
    → Spares act × AllSpare (before ++ rest ∷ after)
spared [] after act rest ((a, r), h) = (a, (r, h))
spared (b ∷ before) after act rest (k, h) =
    let (a, r) = spared before after act rest h in (a, (k, r))

perform-Stuck :
    (act : Todo) (m : Manager)
    → Spares act
    → ((perform act m).loop ≡ m.loop) × ((perform act m).sub_by_param ≡ m.sub_by_param)
unfolding perform
perform-Stuck (drop id) m a = (refl, refl)
perform-Stuck (free id) m a = (refl, refl)
perform-Stuck (set_param param id) m a = absurd a
perform-Stuck (set_id id param) m a = (refl, refl)
perform-Stuck (unset_id id) m a = (refl, refl)
perform-Stuck (unset_param param) m a = absurd a

Step-Stuck :
    {s t : CosmosManager} (subs : List (String × String))
    → subs ≢ []
    → Step s t
    → Stuck subs s
    → Stuck subs t
unfolding submit begin_call fail_call register
Step-Stuck subs ne (connect_failed e) k = k
Step-Stuck {s} subs ne (connected xs e p) k = (
  some_left xs subs
      (λ nil. ne (sym k.1 ∙ sym (Perm.nil-eq (subst (λ x. Perm x s.manager.sub_by_param) nil p)))),
  k.1,
  k.2,
)
Step-Stuck subs ne (resubmit e) k = (tt, k.1, k.2)
Step-Stuck subs ne (resubmit_unsent e) k = (tt, k.1, k.2)
Step-Stuck subs ne (resubmit_timed_out e) k = (tt, k.1, k.2)
Step-Stuck subs ne (resubmitted e) k = absurd (subst Outside e k.0)
Step-Stuck subs ne (received msg e can) k = absurd (subst Outside e k.0)
Step-Stuck subs ne (unread e) k = k
Step-Stuck subs ne (closed e) k = (tt, k.1, k.2)
Step-Stuck subs ne (handed c e at) k = absurd (subst Outside e k.0)
Step-Stuck subs ne (called draws e asks) k = k
Step-Stuck subs ne (unsent draws e asks) k = (k.0, k.1, ((tt, tt), k.2))
Step-Stuck subs ne (timed_out c at) k = (k.0, k.1, ((tt, (tt, tt)), k.2))
Step-Stuck {s} subs ne (moved before after act rest e) k =
    let (a, spare) = spared before after act rest (subst AllSpare e k.2) in
    let (l, p) = perform-Stuck act s.manager a in (subst Outside (sym l) k.0, p ∙ k.1, spare)

Reach-Stuck :
    {s t : CosmosManager} (subs : List (String × String))
    → subs ≢ []
    → Stuck subs s
    → Reach s t
    → Stuck subs t
Reach-Stuck subs ne k here = k
Reach-Stuck subs ne k (next r st) = Step-Stuck subs ne st (Reach-Stuck subs ne k r)

-- Once the connection is lost while a subscription is open, and no goroutine has a response in hand for
-- which it has yet to change `subByParam`, the loop never reads a message again, in whatever order the
-- goroutines move, it hands no response over any more, and `subByParam` stays as it is.
pub reconnect-stuck :
    (s t : CosmosManager)
    → s.manager.loop ≡ connecting
    → s.manager.sub_by_param ≢ []
    → AllSpare s.pending
    → Reach s t
    → (t.manager.loop ≢ reading)
      × ((ch : ℕ) (msg : JsonRpcMsg) → t.manager.loop ≢ handing ch msg)
      × (t.manager.sub_by_param ≡ s.manager.sub_by_param)
reconnect-stuck s t e ne spare r =
    let k = Reach-Stuck s.manager.sub_by_param ne (subst Outside (sym e) tt, refl, spare) r in
    (λ h. subst Outside h k.0, λ ch msg h. subst Outside h k.0, k.1)

-- A message is to be handed to a call that has gone.
record Late (ch : ℕ) (msg : JsonRpcMsg) (m : Manager) : Type 0 where
  at : m.loop ≡ handing ch msg
  old : ch < m.next_chan
  gone : All (λ c. c.chan ≢ ch) m.calls

apart : {a b : Loop} {ch : ℕ} {msg : JsonRpcMsg} → a ≡ handing ch msg → a ≡ b → b ≡ handing ch msg
apart p q = sym q ∙ p

perform-Late :
    (act : Todo) (ch : ℕ) (msg : JsonRpcMsg) (m : Manager)
    → Late ch msg m
    → Late ch msg (perform act m)
unfolding perform
perform-Late (drop id) ch msg m l = record { at = l.at; old = l.old; gone = l.gone }
perform-Late (free id) ch msg m l = record { at = l.at; old = l.old; gone = l.gone }
perform-Late (set_param param id) ch msg m l = record { at = l.at; old = l.old; gone = l.gone }
perform-Late (set_id id param) ch msg m l = record { at = l.at; old = l.old; gone = l.gone }
perform-Late (unset_id id) ch msg m l = record { at = l.at; old = l.old; gone = l.gone }
perform-Late (unset_param param) ch msg m l = record { at = l.at; old = l.old; gone = l.gone }

Step-Late :
    {s t : CosmosManager} (ch : ℕ) (msg : JsonRpcMsg)
    → Step s t
    → Late ch msg s.manager
    → Late ch msg t.manager
unfolding submit begin_call fail_call register
Step-Late ch msg (connect_failed e) l = l
Step-Late ch msg (connected xs e p) l = absurd (let h = apart l.at e in cc)
Step-Late ch msg (resubmit e) l = absurd (let h = apart l.at e in cc)
Step-Late ch msg (resubmit_unsent e) l = absurd (let h = apart l.at e in cc)
Step-Late ch msg (resubmit_timed_out e) l = absurd (let h = apart l.at e in cc)
Step-Late ch msg (resubmitted e) l = absurd (let h = apart l.at e in cc)
Step-Late ch msg (received k e can) l = absurd (let h = apart l.at e in cc)
Step-Late ch msg (unread e) l = l
Step-Late ch msg (closed e) l = absurd (let h = apart l.at e in cc)
Step-Late {s} ch msg (handed c e at) l =
    let h = apart l.at e in absurd (All-mem (λ x. x.chan ≢ ch) s.manager.calls c l.gone at (cc))
Step-Late ch msg (called draws e asks) l = record {
  at = l.at;
  old = omega (arith, l.old);
  gone = (omega (arith, l.old), l.gone);
}
Step-Late ch msg (unsent draws e asks) l = record {
  at = l.at;
  old = omega (arith, l.old);
  gone = l.gone;
}
Step-Late {s} ch msg (timed_out c at) l = record {
  at = l.at;
  old = l.old;
  gone = All-filter (λ x. x.chan ≢ ch) _ s.manager.calls l.gone;
}
Step-Late {s} ch msg (moved before after act rest e) l = perform-Late act ch msg s.manager l

Reach-Late :
    {s t : CosmosManager} (ch : ℕ) (msg : JsonRpcMsg)
    → Late ch msg s.manager
    → Reach s t
    → Late ch msg t.manager
Reach-Late ch msg l here = l
Reach-Late ch msg l (next r st) = Step-Late ch msg st (Reach-Late ch msg l r)

-- If a call times out between the look-up of its channel and the send, the loop waits for good: it
-- stays at that send, in whatever order the goroutines move on.
pub late_response-blocks :
    (s t : CosmosManager) (ch : ℕ) (msg : JsonRpcMsg)
    → s.manager.loop ≡ handing ch msg
    → ch < s.manager.next_chan
    → All (λ c. c.chan ≢ ch) s.manager.calls
    → Reach s t
    → t.manager.loop ≡ handing ch msg
late_response-blocks s t ch msg e old gone r =
    (Reach-Late ch msg (record { at = e; old = old; gone = gone }) r).at
