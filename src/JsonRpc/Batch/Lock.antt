-- ===== src/JsonRpc/Batch/Lock.antt =====
-- The lock on the rules, `rulesMutex` of jsonrpc_handler.go, as a step relation between the requests that
-- hold it for reading and `SetRules`. `handleHttpSingle` defers its `RUnlock`; `handleHttpBatch` calls it
-- after its loop, so that a panic of the loop, which net/http recovers, leaves out the call.
use cosmoguard.Prelude.{
  ℕ, suc, ◌+◌, ◌-◌, ◌≤◌, ◌<◌, ◌≡◌, ◌≢◌, refl, sym, ap, ◌∙◌, subst, List, [], ◌∷◌, ◌++◌, Option,
  none, some, Any, ◌⊎◌, inl, inr, length, arith, nat_eq,
}
use cosmoguard.Go.{Result, ok, panic, ◌>>=◌, Fault}
use cosmoguard.Rules.{RuleAction}
use cosmoguard.Rules.JsonRpc.{JsonRpcRule}
use cosmoguard.JsonRpc.Msg.{JsonRpcMsg}
use cosmoguard.JsonRpc.Handler.{RpcDeps}
use cosmoguard.JsonRpc.Batch.{Batch, empty_batch, process_one, process_all}

module _ {A : Type 0} (P : A → Type 0) where
  Any-middle : (xs ys : List A) (a : A) → Any P (xs ++ a ∷ ys) → P a ⊎ Any P (xs ++ ys)
  Any-middle [] ys a at = at
  Any-middle (x ∷ xs) ys a (inl p) = inr (inl p)
  Any-middle (x ∷ xs) ys a (inr at) = elim (Any-middle xs ys a at) [
    | inl p ↦ inl p
    | inr q ↦ inr (inr q)
  ]

  Any-length : (xs : List A) → Any P xs → 0 < length xs
  Any-length [] at = absurd at
  Any-length (x ∷ xs) at = omega arith

length-middle :
    {A : Type 0} (xs ys : List A) (a : A) → length (xs ++ a ∷ ys) ≡ length (xs ++ ys) + 1
length-middle [] ys a = omega arith
length-middle (x ∷ xs) ys a = omega (arith, length-middle xs ys a)

module _ (d : RpcDeps) where
  -- A request that holds the lock for reading: a single one, or a batch in its loop, with the rules,
  -- the default action and the cache that it sees.
  pub data Reader : Type 0 where
    single : Reader
    batch :
        (rules : List (JsonRpcRule d.globs.Glob)) (default : RuleAction)
        (requests : List (Option JsonRpcMsg)) (s : d.cache.State)
        → Reader

  -- The readers that a `sync.RWMutex` counts, and the requests that are between `RLock` and `RUnlock`.
  pub record RulesMutex : Type 0 where
    pub readers : ℕ
    pub inside : List Reader

  abbrev pub unlocked : RulesMutex
  unlocked = record { readers = 0; inside = [] }

  -- The request gets to its `RUnlock`.
  abbrev pub Unlocks : Reader → Type 0
  Unlocks single = Unit
  Unlocks (batch rules default requests s) =
      (b : Batch d.cache.State) × (process_all d rules default 0 requests (empty_batch d s) ≡ ok b)

  -- The loop panics.
  abbrev pub Panics : Reader → Type 0
  Panics single = ⊥
  Panics (batch rules default requests s) =
      (fault : Fault) × (process_all d rules default 0 requests (empty_batch d s) ≡ panic fault)

  -- `RLock` is taken to be free at any time; `Lock` of `SetRules` needs that there is no reader, and
  -- `SetRules` is one step.
  pub data LockStep (m : RulesMutex) : RulesMutex → Type 0 where
    r_lock : (r : Reader) → LockStep m (record { readers = m.readers + 1; inside = r ∷ m.inside })
    r_unlock :
        (xs ys : List Reader) (r : Reader)
        → m.inside ≡ xs ++ r ∷ ys
        → Unlocks r
        → LockStep m (record { readers = m.readers - 1; inside = xs ++ ys })
    panicked :
        (xs ys : List Reader) (r : Reader)
        → m.inside ≡ xs ++ r ∷ ys
        → Panics r
        → LockStep m (record { readers = m.readers; inside = xs ++ ys })
    set_rules : m.readers ≡ 0 → LockStep m m

  pub data LockReach (m : RulesMutex) : RulesMutex → Type 0 where
    here : LockReach m m
    next : {n k : RulesMutex} → LockReach m n → LockStep n k → LockReach m k

  null_panics :
      (rules : List (JsonRpcRule d.globs.Glob)) (default : RuleAction) (addr : ℕ)
      (requests : List (Option JsonRpcMsg)) (b : Batch d.cache.State)
      → Any (λ m. m ≡ none) requests
      → (fault : Fault) × (process_all d rules default addr requests b ≡ panic fault)
  unfolding process_all process_one
  null_panics rules default addr [] b at = absurd at
  null_panics rules default addr (none ∷ ms) b at = (_, refl)
  null_panics rules default addr (some m ∷ ms) b (inl e) = absurd (cc)
  null_panics rules default addr (some m ∷ ms) b (inr at) =
      by_first (process_one d rules default addr (some m) b)
        (λ b'. null_panics rules default (suc addr) ms b' at)
    where
      by_first :
          (r : Result (Batch d.cache.State))
          → ((b' : Batch d.cache.State)
              → (fault : Fault) × (process_all d rules default (suc addr) ms b' ≡ panic fault))
          → (fault : Fault) × ((r >>= λ b'. process_all d rules default (suc addr) ms b')
              ≡ panic fault)
      by_first (panic fault) later = (fault, refl)
      by_first (ok b') later = later b'

  -- A batch with a null request.
  abbrev pub HasNull : Reader → Type 0
  HasNull single = ⊥
  HasNull (batch rules default requests s) = Any (λ m. m ≡ none) requests

  HasNull-stays : (r : Reader) → HasNull r → Unlocks r → ⊥
  HasNull-stays single null u = null
  HasNull-stays (batch rules default requests s) null (b, e) =
      let (fault, p) = null_panics rules default 0 requests (empty_batch d s) null in
      let k = sym p ∙ e in cc

  -- Each request inside counts as a reader.
  abbrev Counted : RulesMutex → Type 0
  Counted m = length m.inside ≤ m.readers

  Step-Counted : {m n : RulesMutex} → LockStep m n → Counted m → Counted n
  Step-Counted (r_lock r) c = omega (arith, c)
  Step-Counted {m} (r_unlock xs ys r e u) c = omega (arith, c, ap length e, length-middle xs ys r)
  Step-Counted {m} (panicked xs ys r e p) c = omega (arith, c, ap length e, length-middle xs ys r)
  Step-Counted (set_rules e) c = c

  Reach-Counted : {m n : RulesMutex} → LockReach m n → Counted m → Counted n
  Reach-Counted here c = c
  Reach-Counted (next r s) c = Step-Counted s (Reach-Counted r c)

  -- There is a reader too many, or there will be.
  abbrev Leaks : RulesMutex → Type 0
  Leaks m = (length m.inside < m.readers) ⊎ (Any HasNull m.inside × Counted m)

  Step-Leaks : {m n : RulesMutex} → LockStep m n → Leaks m → Leaks n
  Step-Leaks (r_lock r) (inl more) = inl (omega (arith, more))
  Step-Leaks (r_lock r) (inr (at, c)) = inr (inr at, omega (arith, c))
  Step-Leaks (r_unlock xs ys r e u) (inl more) =
      inl (omega (arith, more, ap length e, length-middle xs ys r))
  Step-Leaks {m} (r_unlock xs ys r e u) (inr (at, c)) =
      elim (Any-middle HasNull xs ys r (subst (Any HasNull) e at)) [
        | inl null ↦ absurd (HasNull-stays r null u)
        | inr later ↦ inr (later, omega (arith, c, ap length e, length-middle xs ys r))
      ]
  Step-Leaks (panicked xs ys r e p) (inl more) =
      inl (omega (arith, more, ap length e, length-middle xs ys r))
  Step-Leaks (panicked xs ys r e p) (inr (at, c)) =
      inl (omega (arith, c, ap length e, length-middle xs ys r))
  Step-Leaks (set_rules e) l = l

  Reach-Leaks : {m n : RulesMutex} → LockReach m n → Leaks m → Leaks n
  Reach-Leaks here l = l
  Reach-Leaks (next r s) l = Step-Leaks s (Reach-Leaks r l)

  -- Once a batch with a null request is in its loop, the lock on the rules has a reader in every state
  -- that follows, whatever other requests come and go.
  pub set_rules-waits :
      (m n : RulesMutex)
      → LockReach unlocked m
      → Any HasNull m.inside
      → LockReach m n
      → n.readers ≢ 0
  set_rules-waits m n start at r e =
      elim (Reach-Leaks r (inr (at, Reach-Counted start (omega arith)))) [
        | inl more ↦ absurd (omega (arith, more, e))
        | inr (null, c) ↦ absurd (omega (arith, Any-length HasNull n.inside null, c, e))
      ]
