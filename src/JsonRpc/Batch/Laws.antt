-- ===== src/JsonRpc/Batch/Laws.antt =====
-- What the batch handler of jsonrpc_handler.go decides for each request, and what it sends upstream.
use cosmoguard.Prelude.{
  ℕ, suc, ◌+◌, ◌≡◌, refl, ap, subst, sym, length, is_some, List, [], ◌∷◌, ◌++◌, true, Option, none,
  some, if◌then◌else◌, string_eq, All, arith, ◌∙◌,
}
use mathlib.Core.List.{append-nil, append_assoc}
use cosmoguard.Go.{ok, ok-injective, >>=-eq-ok}
use cosmoguard.Rules.{RuleAction, RuleCache}
use cosmoguard.Rules.JsonRpc.{JsonRpcRule}
use cosmoguard.Policy.{Verdict, permit, refuse, verdict}
use cosmoguard.JsonRpc.Msg.{JsonRpcMsg}
use cosmoguard.JsonRpc.Responses.{
  Ref, JsonRpcResponse, JsonRpcResponses, get_pending_requests, get_final, set,
}
use cosmoguard.JsonRpc.Responses.Laws.{Ascending, fill, set-fill, length-get_final-fill}
use cosmoguard.JsonRpc.Handler.{RpcDeps}
use cosmoguard.JsonRpc.Single.{view_of}
use cosmoguard.JsonRpc.Batch.{Batch, empty_batch, process_one, process_all}
use cosmoguard.JsonRpc.Batch.Rounds.{Says, HasMeaning, Tally, process_one-Decided}

module _ (d : RpcDeps) where
  -- The collection has an entry for each request, in order, as the policy's verdict says.
  abbrev pub Entries :
      List (JsonRpcRule d.globs.Glob)
      → RuleAction
      → ℕ
      → List (Option JsonRpcMsg)
      → JsonRpcResponses
      → Type 0
  Entries rules default addr [] [] = Unit
  Entries rules default addr (some m ∷ ms) (r ∷ rs) =
      (r.request ≡ record { addr = addr; msg = m })
      × ((v : Verdict) × (verdict (view_of d m) default rules ≡ ok v) × Says m v r.response)
      × Entries rules default (suc addr) ms rs
  Entries rules default addr _ _ = ⊥

  Tally-sum :
      (v : Verdict) (b b' : Batch d.cache.State)
      → Tally d v b b'
      → b'.allowed + b'.denied ≡ b.allowed + b.denied + 1
  Tally-sum refuse b b' t = omega (arith, t.0, t.1)
  Tally-sum (permit c) b b' t = omega (arith, t.0, t.1)

  -- Each request of the batch is counted once, as allowed or as denied.
  process_all-counts :
      (rules : List (JsonRpcRule d.globs.Glob)) (default : RuleAction) (addr : ℕ)
      (ms : List (Option JsonRpcMsg)) (b b' : Batch d.cache.State)
      → All HasMeaning rules
      → process_all d rules default addr ms b ≡ ok b'
      → b'.allowed + b'.denied ≡ b.allowed + b.denied + length ms
  unfolding process_all
  process_all-counts rules default addr [] b b' k e = rw (← ok-injective e) (omega arith)
  process_all-counts rules default addr (none ∷ ms) b b' k e = absurd (unfold process_one in cc)
  process_all-counts rules default addr (some m ∷ ms) b b' k e =
      let (b1, one, more) = >>=-eq-ok (process_one d rules default addr (some m) b) _ e in
      let (v, decided, adds) = process_one-Decided d rules default addr m b b1 k one in
      let first = Tally-sum v b b1 adds.tally in
      let rest = process_all-counts rules default (suc addr) ms b1 b' k more in
      omega (arith, first, rest)

  pub process_all-Entries :
      (rules : List (JsonRpcRule d.globs.Glob)) (default : RuleAction) (addr : ℕ)
      (ms : List (Option JsonRpcMsg)) (b b' : Batch d.cache.State)
      → All HasMeaning rules
      → process_all d rules default addr ms b ≡ ok b'
      → (rs : JsonRpcResponses) × (b'.responses ≡ b.responses ++ rs)
        × Entries rules default addr ms rs
  unfolding process_all
  process_all-Entries rules default addr [] b b' k e =
      ([], rw (← ok-injective e) (sym (append-nil b.responses)), tt)
  process_all-Entries rules default addr (none ∷ ms) b b' k e = absurd (unfold process_one in cc)
  process_all-Entries rules default addr (some m ∷ ms) b b' k e =
      let (b1, one, more) = >>=-eq-ok (process_one d rules default addr (some m) b) _ e in
      let (v, decided, adds) = process_one-Decided d rules default addr m b b1 k one in
      let (rs, same, entries) = process_all-Entries rules default (suc addr) ms b1 b' k more in
      (
        adds.entry ∷ rs,
        rw (same, adds.added) (append_assoc b.responses (adds.entry ∷ []) rs),
        (adds.asked, (v, decided, adds.says), entries),
      )

  Entries-Ascending :
      (rules : List (JsonRpcRule d.globs.Glob)) (default : RuleAction) (addr : ℕ)
      (ms : List (Option JsonRpcMsg)) (rs : JsonRpcResponses)
      → Entries rules default addr ms rs
      → Ascending addr rs × (length rs ≡ length ms)
  Entries-Ascending rules default addr [] [] h = (tt, refl)
  Entries-Ascending rules default addr (some m ∷ ms) (r ∷ rs) h =
      let (above, same) = Entries-Ascending rules default (suc addr) ms rs h.2 in
      let at_addr = ap (λ (q : Ref). q.addr) h.0 in
      ((omega arith, subst (λ n. Ascending (suc n) rs) (sym at_addr) above), omega arith)
  Entries-Ascending rules default addr _ _ h = absurd h

  abbrev pub IsPermitted : List (JsonRpcRule d.globs.Glob) → RuleAction → Ref → Type 0
  IsPermitted rules default q =
      (c : Option RuleCache) × (verdict (view_of d q.msg) default rules ≡ ok (permit c))

  pending_step :
      (rules : List (JsonRpcRule d.globs.Glob)) (default : RuleAction) (r : JsonRpcResponse)
      (rs : JsonRpcResponses) (v : Verdict) (o : Option JsonRpcMsg)
      → r.response ≡ o
      → verdict (view_of d r.request.msg) default rules ≡ ok v
      → Says r.request.msg v o
      → All (IsPermitted rules default) (get_pending_requests rs)
      → All (IsPermitted rules default) (get_pending_requests (r ∷ rs))
  unfolding get_pending_requests
  pending_step rules default r rs v (some m) e d says rest =
      subst
        (λ x.
          All (IsPermitted rules default)
            (if is_some x then get_pending_requests rs else r.request ∷ get_pending_requests rs))
        (sym e) rest
  pending_step rules default r rs (permit c) none e d says rest =
      subst
        (λ x.
          All (IsPermitted rules default)
            (if is_some x then get_pending_requests rs else r.request ∷ get_pending_requests rs))
        (sym e) ((c, d), rest)
  pending_step rules default r rs refuse none e d says rest = absurd (cc)

  pending-IsPermitted :
      (rules : List (JsonRpcRule d.globs.Glob)) (default : RuleAction) (addr : ℕ)
      (ms : List (Option JsonRpcMsg)) (rs : JsonRpcResponses)
      → Entries rules default addr ms rs
      → All (IsPermitted rules default) (get_pending_requests rs)
  unfolding get_pending_requests
  pending-IsPermitted rules default addr [] [] h = tt
  pending-IsPermitted rules default addr (some m ∷ ms) (r ∷ rs) h =
      let (v, decided, says) = h.1 in
      let q = sym (ap (λ (q : Ref). q.msg) h.0) in
      pending_step rules default r rs v r.response refl
        (subst (λ x. verdict (view_of d x) default rules ≡ ok v) q decided)
        (subst (λ x. Says x v r.response) q says)
        (pending-IsPermitted rules default (suc addr) ms rs h.2)
  pending-IsPermitted rules default addr _ _ h = absurd h

  -- Where every rule's action has a meaning, the collection that the loop of the batch leaves has an
  -- entry for each request, in order: a refusal for one that the policy refuses, and for one that it
  -- permits a cached message under the request's id, or an open entry. Only permitted requests are
  -- left for upstream, and each request is counted once, as allowed or as denied.
  pub process_all-guards :
      (rules : List (JsonRpcRule d.globs.Glob)) (default : RuleAction)
      (requests : List (Option JsonRpcMsg)) (s : d.cache.State) (b : Batch d.cache.State)
      → All HasMeaning rules
      → process_all d rules default 0 requests (empty_batch d s) ≡ ok b
      → Entries rules default 0 requests b.responses
        × All (IsPermitted rules default) (get_pending_requests b.responses)
        × (b.allowed + b.denied ≡ length requests)
  process_all-guards rules default requests s b k e =
      let (rs, same, entries) =
        process_all-Entries rules default 0 requests (empty_batch d s) b k e in
      let counted = process_all-counts rules default 0 requests (empty_batch d s) b k e in
      (
        rw same entries,
        rw same (pending-IsPermitted rules default 0 requests rs entries),
        omega (arith, counted),
      )

  -- If upstream answers each of the requests that it is sent, `Set` gives them its responses in
  -- order, and the reply has one message for each request of the batch.
  pub process_all-completes :
      (rules : List (JsonRpcRule d.globs.Glob)) (default : RuleAction)
      (requests : List (Option JsonRpcMsg)) (s : d.cache.State) (b : Batch d.cache.State)
      (replies : List (Option JsonRpcMsg))
      → All HasMeaning rules
      → process_all d rules default 0 requests (empty_batch d s) ≡ ok b
      → length replies ≡ length (get_pending_requests b.responses)
      → All (λ m. is_some m ≡ true) replies
      → (set (get_pending_requests b.responses) replies b.responses ≡ ok (fill b.responses replies))
        × (length (get_final (fill b.responses replies)) ≡ length requests)
  process_all-completes rules default requests s b replies k e n answered =
      let (rs, same, entries) =
        process_all-Entries rules default 0 requests (empty_batch d s) b k e in
      let (above, count) = Entries-Ascending rules default 0 requests rs entries in
      let above' : Ascending 0 b.responses = subst (Ascending 0) (sym same) above in
      (
        set-fill 0 b.responses replies above' n,
        length-get_final-fill b.responses replies n answered ∙ (ap length same ∙ count),
      )
