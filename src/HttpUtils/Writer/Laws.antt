-- ===== src/HttpUtils/Writer/Laws.antt =====
-- What the wrapper of http_utils.go keeps of a response, and what the client is sent.
use cosmoguard.Prelude.{ℕ, String, ◌≡◌, refl, List, [], ◌∷◌, ◌++◌, Option, none, some, arith, ◌≤◌}
use mathlib.Core.List.{append_assoc}
use cosmoguard.Go.{Bytes}
use cosmoguard.HttpUtils.Writer.{
  Writer, Call, write_data, set_header, add_header, write_header, write, respond_all, Wrapper, wrap,
  forward, forward_all,
}

-- The wrapper passes every call on to the writer that it wraps.
pub inner-forward_all :
    (cs : List Call) (ww : Wrapper) → (forward_all ww cs).inner ≡ respond_all ww.inner cs
unfolding forward_all respond_all
inner-forward_all [] ww = refl
inner-forward_all (set_header k v ∷ cs) ww = inner-forward_all cs (forward ww (set_header k v))
inner-forward_all (add_header k v ∷ cs) ww = inner-forward_all cs (forward ww (add_header k v))
inner-forward_all (write_header code ∷ cs) ww =
    inner-forward_all cs (forward ww (write_header code))
inner-forward_all (write bs ∷ cs) ww = inner-forward_all cs (forward ww (write bs))

-- The body sent grows with the buffer.
pub Grown : Bytes → Wrapper → Type 0
Grown before ww = ww.inner.body ≡ before ++ ww.buf

forward-Grown :
    (before : Bytes) (c : Call) (ww : Wrapper) → Grown before ww → Grown before (forward ww c)
unfolding forward Grown
forward-Grown before (set_header k v) ww h = ground arith
forward-Grown before (add_header k v) ww h = ground arith
forward-Grown before (write_header code) ww h = ground arith
forward-Grown before (write bs) ww h = ground (arith, append_assoc before ww.buf bs)

forward_all-Grown :
    (before : Bytes) (cs : List Call) (ww : Wrapper)
    → Grown before ww
    → Grown before (forward_all ww cs)
unfolding forward_all
forward_all-Grown before [] ww h = h
forward_all-Grown before (c ∷ cs) ww h =
    forward_all-Grown before cs (forward ww c) (forward-Grown before c ww h)

-- A reply as HTTP handlers make it: headers, then one final status at most, then the body.
abbrev pub HasNoStatus : List Call → Type 0
HasNoStatus [] = Unit
HasNoStatus (write_header code ∷ cs) = ⊥
HasNoStatus (_ ∷ cs) = HasNoStatus cs

abbrev pub IsPlain : List Call → Type 0
IsPlain [] = Unit
IsPlain (set_header k v ∷ cs) = IsPlain cs
IsPlain (add_header k v ∷ cs) = IsPlain cs
IsPlain (write_header code ∷ cs) = (200 ≤ code) × HasNoStatus cs
IsPlain (write bs ∷ cs) = HasNoStatus cs

-- The status that the wrapper recorded, 0 for none, against the one sent.
abbrev pub Agrees : Option ℕ → ℕ → Type 0
Agrees none n = n ≡ 0
Agrees (some c) n = (n ≡ c) × (200 ≤ c)

write-Agrees :
    (bs : Bytes) (ww : Wrapper) (s : Option ℕ)
    → ww.inner.status ≡ s
    → Agrees s ww.status_code
    → Agrees (forward ww (write bs)).inner.status (forward ww (write bs)).status_code
unfolding forward
write-Agrees bs ww none e h = ground arith
write-Agrees bs ww (some c) e h = ground arith

header-Agrees :
    (k v : String) (ww : Wrapper) (s : Option ℕ)
    → ww.inner.status ≡ s
    → Agrees s ww.status_code
    → Agrees (forward ww (set_header k v)).inner.status ww.status_code
      × Agrees (forward ww (add_header k v)).inner.status ww.status_code
unfolding forward
header-Agrees k v ww none e h = ground arith
header-Agrees k v ww (some c) e h = ground arith

rest-Agrees :
    (cs : List Call) (ww : Wrapper)
    → HasNoStatus cs
    → Agrees ww.inner.status ww.status_code
    → Agrees (forward_all ww cs).inner.status (forward_all ww cs).status_code
unfolding forward_all
rest-Agrees [] ww n h = h
rest-Agrees (set_header k v ∷ cs) ww n h =
    rest-Agrees cs (forward ww (set_header k v)) n (header-Agrees k v ww ww.inner.status refl h).0
rest-Agrees (add_header k v ∷ cs) ww n h =
    rest-Agrees cs (forward ww (add_header k v)) n (header-Agrees k v ww ww.inner.status refl h).1
rest-Agrees (write_header code ∷ cs) ww n h = absurd n
rest-Agrees (write bs ∷ cs) ww n h =
    rest-Agrees cs (forward ww (write bs)) n (write-Agrees bs ww ww.inner.status refl h)

plain-Agrees :
    (cs : List Call) (ww : Wrapper)
    → IsPlain cs
    → ww.inner.status ≡ none
    → ww.status_code ≡ 0
    → Agrees (forward_all ww cs).inner.status (forward_all ww cs).status_code
unfolding forward_all
plain-Agrees [] ww p e z = ground arith
plain-Agrees (set_header k v ∷ cs) ww p e z =
    plain-Agrees cs (forward ww (set_header k v)) p (ground arith) (ground arith)
plain-Agrees (add_header k v ∷ cs) ww p e z =
    plain-Agrees cs (forward ww (add_header k v)) p (ground arith) (ground arith)
plain-Agrees (write_header code ∷ cs) ww p e z =
    rest-Agrees cs (forward ww (write_header code)) p.1 (ground arith)
plain-Agrees (write bs ∷ cs) ww p e z = rest-Agrees cs (forward ww (write bs)) p (ground arith)

-- Through a wrapper round a writer that has sent no body the client is sent the wrapped reply, call
-- for call, and the buffer holds the body that the client was sent.
pub wrap_mirrors :
    (cs : List Call) (w : Writer)
    → w.body ≡ []
    → let ww = forward_all (wrap w) cs in (ww.inner ≡ respond_all w cs) × (ww.inner.body ≡ ww.buf)
unfolding wrap Grown
wrap_mirrors cs w b = (inner-forward_all cs (wrap w), forward_all-Grown [] cs (wrap w) b)

-- The status that the wrapper recorded is the one that the client was sent, 0 for none, if the
-- writer had sent none and the reply is made of headers first and one final status at most.
pub wrap-Agrees :
    (cs : List Call) (w : Writer)
    → w.status ≡ none
    → IsPlain cs
    → let ww = forward_all (wrap w) cs in Agrees ww.inner.status ww.status_code
unfolding wrap
wrap-Agrees cs w e p = plain-Agrees cs (wrap w) p e refl

-- A reply from the cache.
pub write_data-fresh :
    (w : Writer) (code : ℕ) (bytes : Bytes) (k k' v v' : String)
    → w.status ≡ none
    → 200 ≤ code
    → let w' = write_data w code bytes (k ∷ v ∷ k' ∷ v' ∷ []) in
      (w'.status ≡ some code) × (w'.body ≡ w.body ++ bytes)
unfolding write_data respond_all
write_data-fresh w code bytes k k' v v' e h = ground arith
