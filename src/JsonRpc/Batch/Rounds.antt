-- ===== src/JsonRpc/Batch/Rounds.antt =====
-- One round of the loop of `handleHttpBatch`, jsonrpc_handler.go: the entry for one request.
use cosmoguard.Prelude.{
  ℕ, ◌≡◌, refl, ap, subst, ◌+◌, ◌⊎◌, inl, inr, List, [], ◌∷◌, ◌++◌, Bool, true, false, Option, none,
  some, Bool-cases, string_eq, ◌==◌, All, eq_iff,
}
use cosmoguard.Go.{Result, ok, panic, ok-injective}
use cosmoguard.Cache.{Found, found, failed, Error}
use cosmoguard.Rules
use cosmoguard.Rules.{RuleAction, RuleCache}
use cosmoguard.Rules.JsonRpc.{JsonRpcRule, match}
use cosmoguard.Policy.{Verdict, permit, refuse, verdict, default_verdict}
use cosmoguard.JsonRpc.Msg.{JsonRpcMsg, clone_with_id, unauthorized_response, hash}
use cosmoguard.JsonRpc.Responses.{
  Ref, JsonRpcResponse, add_pending, add_response, add_pending_with_cache_config, deny,
}
use cosmoguard.JsonRpc.Handler.{RpcDeps}
use cosmoguard.JsonRpc.Single.{view_of}
use cosmoguard.JsonRpc.Batch.{
  Batch, by_default, got_one, asked_one, deny_one, allow_one, miss_one, walk_rules, process_one,
}

-- The response that a verdict leaves in the collection: a refusal, a cached message under the
-- request's id, or none yet.
abbrev pub Says : JsonRpcMsg → Verdict → Option JsonRpcMsg → Type 0
Says m refuse o = o ≡ some (unauthorized_response m)
Says m (permit c) o = (o ≡ none) ⊎ ((kept : JsonRpcMsg) × (o ≡ some (clone_with_id kept m.id)))

-- The actions of the configuration have a meaning.
abbrev pub HasMeaning : {Glob : Type 0} → JsonRpcRule Glob → Type 0
HasMeaning r = (r.action ≡ Rules.allow) ⊎ (r.action ≡ Rules.deny)

deny_ne_allow : (a : RuleAction) → a ≡ Rules.deny → (a == Rules.allow) ≡ false
deny_ne_allow a e = rw e

module _ (d : RpcDeps) where
  -- The counters of a batch after one more request.
  abbrev pub Tally : Verdict → Batch d.cache.State → Batch d.cache.State → Type 0
  Tally refuse b b' = (b'.allowed ≡ b.allowed) × (b'.denied ≡ b.denied + 1)
  Tally (permit c) b b' = (b'.allowed ≡ b.allowed + 1) × (b'.denied ≡ b.denied)

  recount :
      (v : Verdict) (n : ℕ) (b b' : Batch d.cache.State)
      → Tally v (record b { cache_misses = n }) b'
      → Tally v b b'
  recount refuse n b b' t = t
  recount (permit c) n b b' t = t

  -- One entry is added for the request, as the verdict says.
  pub record Adds (req : Ref) (v : Verdict) (b b' : Batch d.cache.State) : Type 0 where
    pub entry : JsonRpcResponse
    pub added : b'.responses ≡ b.responses ++ entry ∷ []
    pub asked : entry.request ≡ req
    pub says : Says req.msg v entry.response
    pub untouched : v ≡ refuse → b'.cache ≡ b.cache
    pub tally : Tally v b b'

  deny_one-Adds : (req : Ref) (b : Batch d.cache.State) → Adds req refuse b (deny_one d req b)
  unfolding deny_one deny
  deny_one-Adds req b = record {
    entry = _;
    added = refl;
    asked = refl;
    says = refl;
    untouched = λ e. refl;
    tally = (refl, refl);
  }

  by_default-Adds :
      (default : RuleAction) (req : Ref) (b : Batch d.cache.State)
      → Adds req (default_verdict default) b (by_default d default req b)
  unfolding by_default default_verdict add_pending deny
  by_default-Adds default req b = elim (Bool-cases (default == Rules.allow)) [
    | inl a ↦ rw a (record {
      entry = _;
      added = refl;
      asked = refl;
      says = inl refl;
      untouched = λ e. cc;
      tally = (refl, refl);
    })
    | inr n ↦ rw n (record {
      entry = _;
      added = refl;
      asked = refl;
      says = refl;
      untouched = λ e. refl;
      tally = (refl, refl);
    })
  ]

  miss_one-Adds :
      (req : Ref) (c : Option RuleCache) (b0 b : Batch d.cache.State)
      → b0.responses ≡ b.responses
      → Tally (permit c) b b0
      → Adds req (permit c) b (miss_one d req c b0)
  unfolding miss_one add_pending_with_cache_config
  miss_one-Adds req c b0 b e t = record {
    entry = pending;
    added = ap (λ l. l ++ pending ∷ []) e;
    asked = refl;
    says = inl refl;
    untouched = λ e. cc;
    tally = t;
  }
    where
      pending : JsonRpcResponse
      pending = record {
        request = req;
        response = none;
        cache = c;
        cache_key = hash d.codec req.msg;
      }

  got_one-Adds :
      (req : Ref) (c : Option RuleCache) (res : Found JsonRpcMsg) (b0 b : Batch d.cache.State)
      → b0.responses ≡ b.responses
      → Tally (permit c) b b0
      → Adds req (permit c) b (got_one d req c res b0)
  unfolding got_one add_response
  got_one-Adds req c (found m) b0 b e t = record {
    entry = answer;
    added = ap (λ l. l ++ answer ∷ []) e;
    asked = refl;
    says = inr (m, refl);
    untouched = λ e. cc;
    tally = t;
  }
    where
      answer : JsonRpcResponse
      answer = record {
        request = req;
        response = some (clone_with_id m req.msg.id);
        cache = none;
        cache_key = 0;
      }
  got_one-Adds req c (failed err) b0 b e t = miss_one-Adds req c b0 b e t

  asked_one-Adds :
      (req : Ref) (c : Option RuleCache) (cached : Bool) (err : Option Error)
      (b0 b : Batch d.cache.State)
      → b0.responses ≡ b.responses
      → Tally (permit c) b b0
      → Adds req (permit c) b (asked_one d req c cached err b0)
  unfolding asked_one
  asked_one-Adds req c cached (some err) b0 b e t = miss_one-Adds req c b0 b e t
  asked_one-Adds req c false none b0 b e t = miss_one-Adds req c b0 b e t
  asked_one-Adds req c true none b0 b e t = got_one-Adds req c _ _ b e t

  allow_one-Adds :
      (req : Ref) (c : Option RuleCache) (b : Batch d.cache.State)
      → Adds req (permit c) b (allow_one d req c b)
  unfolding allow_one
  allow_one-Adds req c b = asked_one-Adds req c _ _ _ b refl (refl, refl)

  abbrev pub Decided :
      List (JsonRpcRule d.globs.Glob)
      → RuleAction
      → Ref
      → Batch d.cache.State
      → Batch d.cache.State
      → Type 0
  Decided rules default req b b' =
      (v : Verdict) × (verdict (view_of d req.msg) default rules ≡ ok v) × Adds req v b b'

  hit_step :
      (r : JsonRpcRule d.globs.Glob) (rules : List (JsonRpcRule d.globs.Glob))
      (default : RuleAction) (req : Ref) (b b' : Batch d.cache.State) (hit : Result Bool)
      → HasMeaning r
      → match d.globs r req.msg.method req.msg.params ≡ hit
      → (walk_rules d rules default req b ≡ ok b' → Decided rules default req b b')
      → walk_rules d (r ∷ rules) default req b ≡ ok b'
      → Decided (r ∷ rules) default req b b'
  unfolding walk_rules verdict
  hit_step r rules default req b b' (panic f) k h ih e = absurd (cc (rw h at e))
  hit_step r rules default req b b' (ok false) k h ih e =
      let (v, e', adds) = ih (rw h at e) in (v, rw h e', adds)
  hit_step r rules default req b b' (ok true) (inl a) h ih e =
      let q = (eq_iff r.action Rules.allow).1 a in
      (
        permit r.cache,
        rw (h, q),
        subst (Adds req (permit r.cache) b) (ok-injective (rw (h, q) at e))
            (allow_one-Adds req r.cache b),
      )
  hit_step r rules default req b b' (ok true) (inr n) h ih e =
      let q = deny_ne_allow r.action n in
      let q' = (eq_iff r.action Rules.deny).1 n in
      (
        refuse,
        rw (h, q, q'),
        subst (Adds req refuse b) (ok-injective (rw (h, q, q') at e)) (deny_one-Adds req b),
      )

  walk_rules-Decided :
      (rules : List (JsonRpcRule d.globs.Glob)) (default : RuleAction) (req : Ref)
      (b b' : Batch d.cache.State)
      → All HasMeaning rules
      → walk_rules d rules default req b ≡ ok b'
      → Decided rules default req b b'
  unfolding walk_rules verdict
  walk_rules-Decided [] default req b b' k e = (
    default_verdict default,
    refl,
    subst (Adds req (default_verdict default) b) (ok-injective e) (by_default-Adds default req b),
  )
  walk_rules-Decided (r ∷ rules) default req b b' k e =
      hit_step r rules default req b b' (match d.globs r req.msg.method req.msg.params) k.0 refl
        (walk_rules-Decided rules default req b b' k.1) e

  -- A round of the loop adds one entry to the collection, as the policy's verdict says.
  pub process_one-Decided :
      (rules : List (JsonRpcRule d.globs.Glob)) (default : RuleAction) (addr : ℕ) (m : JsonRpcMsg)
      (b b' : Batch d.cache.State)
      → All HasMeaning rules
      → process_one d rules default addr (some m) b ≡ ok b'
      → Decided rules default (record { addr = addr; msg = m }) b b'
  unfolding process_one
  process_one-Decided [] default addr m b b' k e =
      let req : Ref = record { addr = addr; msg = m } in
      let a = by_default-Adds default req (record b { cache_misses = b.cache_misses + 1 }) in
      (
        default_verdict default,
        unfold verdict in refl,
        subst (Adds req (default_verdict default) b) (ok-injective e) (record {
          entry = a.entry;
          added = a.added;
          asked = a.asked;
          says = a.says;
          untouched = a.untouched;
          tally = recount (default_verdict default) (b.cache_misses + 1) b _ a.tally;
        }),
      )
  process_one-Decided (r ∷ rules) default addr m b b' k e =
      walk_rules-Decided (r ∷ rules) default (record { addr = addr; msg = m }) b b' k e
