-- ===== src/Ws/Upstream/Wired.antt =====
-- Which channel belongs to which call: what ws_upstream_cosmos.go and ws_upstream_eth.go rely on to
-- give a response to the call that asked for it.
use cosmoguard.Prelude.{
  ℕ, ◌+◌, ◌<◌, ◌≡◌, refl, sym, ap, ◌∙◌, List, ◌∷◌, String, some, lookup, insert, remove,
  lookup-insert, lookup-remove, All, All-mem, All-filter, All-map, Any, arith, eq_iff, nat_eq,
  string_eq, subst, [],
}
use cosmoguard.JsonRpc.Msg.{JsonRpcMsg}
use cosmoguard.Ws.Upstream.{Purpose, Call, Loop, handing, Manager, msg_id, without}

-- Channels are numbered in order, and an entry of `respMap` with the channel of a call that waits
-- carries the id of that call.
abbrev pub Owns : List (String × ℕ) → ℕ → Call → Type 0
Owns resp n c = (c.chan < n) × ((i : String) → lookup i resp ≡ some c.chan → i ≡ c.id)

pub record Wired (resp : List (String × ℕ)) (n : ℕ) (cs : List Call) : Type 0 where
  pub made : (i : String) (ch : ℕ) → lookup i resp ≡ some ch → ch < n
  pub owned : All (Owns resp n) cs

-- The message that `Run` hands over carries the id of the call that waits at its channel.
abbrev pub Hands : Loop → ℕ → List Call → Type 0
Hands (handing ch msg) n cs =
    (ch < n) × (i : String) × (msg_id msg.id ≡ some i) × All (λ c. c.chan ≡ ch → c.id ≡ i) cs
Hands _ n cs = Unit

abbrev pub Inv : Manager → Type 0
Inv m = Wired m.resp_map m.next_chan m.calls × Hands m.loop m.next_chan m.calls

module _ {resp : List (String × ℕ)} {n : ℕ} {cs : List Call} (w : Wired resp n cs) where
  pub Wired-insert : (id : String) → Wired (insert id n resp) (n + 1) cs
  Wired-insert id = record {
    made = λ i ch h. ground (arith, lookup-insert id i n resp, w.made i ch);
    owned =
        All-map (Owns resp n) (Owns (insert id n resp) (n + 1)) cs
          (λ c o.
            (omega (arith, o.0), λ i h. ground (arith, lookup-insert id i n resp, o.1 i, o.0)))
          w.owned;
  }

  pub Wired-call :
      (id : String) (req : JsonRpcMsg) (purpose : Purpose)
      → Wired
          (insert id n resp)
          (n + 1)
          (record { id = id; chan = n; req = req; purpose = purpose } ∷ cs)
  Wired-call id req purpose = record {
    made = (Wired-insert id).made;
    owned = (
      (omega arith, λ i h. ground (arith, lookup-insert id i n resp, w.made i n, eq_iff id i)),
      (Wired-insert id).owned,
    );
  }

  pub Wired-remove : (id : String) → Wired (remove id resp) n cs
  Wired-remove id = record {
    made = λ i ch h. ground (arith, lookup-remove id i resp, w.made i ch);
    owned =
        All-map (Owns resp n) (Owns (remove id resp) n) cs
          (λ c o. (o.0, λ i h. ground (arith, lookup-remove id i resp, o.1 i))) w.owned;
  }

  pub Wired-without : (ch : ℕ) → Wired resp n (without ch cs)
  Wired-without ch = record { made = w.made; owned = All-filter (Owns resp n) _ cs w.owned }

-- The loop stays where it is while a channel is made, a call is begun, or calls are dropped.
pub Hands-later : (l : Loop) (n : ℕ) (cs : List Call) → Hands l n cs → Hands l (n + 1) cs
Hands-later (handing ch msg) n cs (lt, i, e, h) = (omega arith, i, e, h)
Hands-later _ n cs h = tt

pub Hands-call :
    (l : Loop) (n : ℕ) (cs : List Call) (c : Call)
    → c.chan ≡ n
    → Hands l n cs
    → Hands l (n + 1) (c ∷ cs)
Hands-call (handing ch msg) n cs c e (lt, i, m, h) =
    (omega arith, i, m, (λ same. absurd (omega arith), h))
Hands-call _ n cs c e h = tt

pub Hands-without :
    (l : Loop) (n ch : ℕ) (cs : List Call) → Hands l n cs → Hands l n (without ch cs)
Hands-without (handing k msg) n ch cs (lt, i, e, h) =
    (lt, i, e, All-filter (λ c. c.chan ≡ k → c.id ≡ i) _ cs h)
Hands-without _ n ch cs h = tt

-- The connection is made anew: no channel has an entry.
pub Wired-reset :
    {resp : List (String × ℕ)} {n : ℕ} {cs : List Call} → Wired resp n cs → Wired [] n cs
unfolding lookup
Wired-reset {resp} {n} {cs} w = record {
  made = λ i ch h. absurd (cc);
  owned = All-map (Owns resp n) (Owns [] n) cs (λ c o. (o.0, λ i h. absurd (cc))) w.owned;
}

pub handing_id :
    (l : Loop) (n : ℕ) (cs : List Call) (c : Call) (msg : JsonRpcMsg)
    → l ≡ handing c.chan msg
    → Hands l n cs
    → Any (λ x. x ≡ c) cs
    → msg_id msg.id ≡ some c.id
handing_id l n cs c msg e h at =
    let (lt, i, m, all) = subst (λ x. Hands x n cs) e h in
    m ∙ ap some (sym (All-mem (λ x. x.chan ≡ c.chan → x.id ≡ i) cs c all at refl))
