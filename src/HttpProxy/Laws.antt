-- ===== src/HttpProxy/Laws.antt =====
-- The HTTP proxy of http_proxy.go against the policy: what it sends upstream, and what it refuses.
use cosmoguard.Prelude.{
  suc, ◌≡◌, refl, subst, sym, ap, ◌⊎◌, inl, inr, List, [], ◌∷◌, ◌++◌, Bool, true, false, String,
  Option, none, some, length, if◌then◌else◌, arith, string_eq, ◌==◌, Bool-cases,
}
use cosmoguard.Go.{utf8, ok, ok-injective}
use cosmoguard.Rules
use cosmoguard.Rules.{RuleAction, RuleCache}
use cosmoguard.Rules.Http.{HttpRule, match}
use cosmoguard.Policy.{Verdict, permit, refuse, View, verdict, default_verdict}
use cosmoguard.Policy.Laws.{Outcome, verdict_cases, verdict_total}
use cosmoguard.Util.{sha256}
use cosmoguard.HttpUtils.Reader.{Reader, Reader, reusable_reader}
use cosmoguard.HttpUtils.Reader.Laws.{read_all_restores}
use cosmoguard.HttpUtils.Writer.{Wrapper, write_error}
use cosmoguard.HttpProxy.{
  HttpRequest, Deps, Exchange, get_request_hash, call_upstream, cache_hit, store_reply, cache_miss,
  allow, deny, serve_rules, start,
}

-- The key under which a reply is cached: the digest of method, URL and body, joined end to end.
abbrev pub key_of : Deps → HttpRequest → String
key_of d req = sha256 d.sum256 (utf8 req.method ++ utf8 req.url ++ req.body)

module _ (d : Deps) where
  abbrev pub view_of : HttpRequest → View (HttpRule d.globs.Glob)
  view_of req = record {
    hits = λ r. ok (match d.globs r (record { method = req.method; path = req.path }));
    action = λ r. r.action;
    cache = λ r. r.cache;
  }

  abbrev pub enforce : HttpRequest → Exchange d.cache.State → Verdict → Exchange d.cache.State
  enforce req e (permit c) = allow d req c e
  enforce req e refuse = deny d e

  enforce_step :
      (r : HttpRule d.globs.Glob) (rules : List (HttpRule d.globs.Glob)) (default : RuleAction)
      (req : HttpRequest) (e : Exchange d.cache.State) (v : Verdict)
      → (verdict (view_of req) default rules ≡ ok v
          → serve_rules d rules default req e ≡ enforce req e v)
      → verdict (view_of req) default (r ∷ rules) ≡ ok v
      → serve_rules d (r ∷ rules) default req e ≡ enforce req e v
  unfolding serve_rules verdict
  enforce_step r rules default req e v ih h =
      elim (Bool-cases (match d.globs r (record { method = req.method; path = req.path }))) [
        | inl m ↦ elim (Bool-cases (r.action == Rules.allow)) [
          | inl a ↦ rw (m, a) (ap (enforce req e) (ok-injective (rw (m, a) at h)))
          | inr na ↦ elim (Bool-cases (r.action == Rules.deny)) [
            | inl n ↦ rw (m, na, n) (ap (enforce req e) (ok-injective (rw (m, na, n) at h)))
            | inr nn ↦ rw (m, na, nn) (ih (rw (m, na, nn) at h))
          ]
        ]
        | inr n ↦ rw n (ih (rw n at h))
      ]

  serve_rules-enforce :
      (rules : List (HttpRule d.globs.Glob)) (default : RuleAction) (req : HttpRequest)
      (e : Exchange d.cache.State) (v : Verdict)
      → verdict (view_of req) default rules ≡ ok v
      → serve_rules d rules default req e ≡ enforce req e v
  unfolding serve_rules verdict default_verdict
  serve_rules-enforce [] default req e v h = elim (Bool-cases (default == Rules.allow)) [
    | inl a ↦ rw a (ap (enforce req e) (ok-injective (rw a at h)))
    | inr na ↦ rw na (ap (enforce req e) (ok-injective (rw na at h)))
  ]
  serve_rules-enforce (r ∷ rules) default req e v h =
      enforce_step r rules default req e v (serve_rules-enforce rules default req e v) h

  -- The proxy enforces the verdict of the first rule that decides: it serves the request under that
  -- rule's caching settings, or refuses it.
  pub serve_rules-Outcome :
      (rules : List (HttpRule d.globs.Glob)) (default : RuleAction) (req : HttpRequest)
      (e : Exchange d.cache.State)
      → (v : Verdict) × Outcome (view_of req) default rules v
        × (serve_rules d rules default req e ≡ enforce req e v)
  serve_rules-Outcome rules default req e =
      let (v, h) = verdict_total (view_of req) default (λ r. (_, refl)) rules in
      (
        v,
        verdict_cases (view_of req) default rules v h,
        serve_rules-enforce rules default req e v h,
      )

  pub get_request_hash_lem :
      (req : HttpRequest)
      → get_request_hash d req (reusable_reader req.body) ≡ (reusable_reader req.body, key_of d req)
  unfolding get_request_hash reusable_reader
  get_request_hash_lem req =
      let read = read_all_restores d.room (suc (length req.body)) req.body (omega arith) in rw read

  -- A refused request is answered with status 401 and nothing else happens.
  pub deny-start :
      (req : HttpRequest) (s : d.cache.State)
      → ((deny d (start d req s)).forwarded ≡ [])
        × ((deny d (start d req s)).cache ≡ s)
        × ((deny d (start d req s)).writer.status ≡ some 401)
        × ((deny d (start d req s)).writer.body ≡ utf8 "unauthorized")
  unfolding deny start write_error
  deny-start req s = (refl, refl, refl, refl)

  pub store_reply-keeps :
      (hash : String) (c : RuleCache) (ww : Wrapper) (e : Exchange d.cache.State)
      → ((store_reply d hash c ww e).forwarded ≡ e.forwarded)
        × ((store_reply d hash c ww e).writer ≡ e.writer)
  unfolding store_reply
  store_reply-keeps hash c ww e = ground arith

  pub cache_hit-forwarded :
      (hash : String) (e : Exchange d.cache.State) → (cache_hit d hash e).forwarded ≡ e.forwarded
  unfolding cache_hit
  cache_hit-forwarded hash e = ground arith

  -- What `allow` does where the rule caches: the cache is asked for the request's key first.
  pub allow-cached :
      (req : HttpRequest) (c : RuleCache) (s : d.cache.State)
      → c.enable ≡ true
      → let e = record (start d req s) { cache = (d.cache.has (key_of d req) s).0 } in
        allow d req (some c) (start d req s) ≡ (
          if (d.cache.has (key_of d req) s).1
          then cache_hit d (key_of d req) e
          else cache_miss d req (key_of d req) c e)
  unfolding allow start
  allow-cached req c s h = rw (h, get_request_hash_lem req)

  -- Without settings, or with caching switched off, the request goes upstream.
  pub allow-none :
      (req : HttpRequest) (e : Exchange d.cache.State)
      → allow d req none e ≡ (call_upstream d req e).0
  unfolding allow
  allow-none req e = refl

  pub allow-disabled :
      (req : HttpRequest) (c : RuleCache) (e : Exchange d.cache.State)
      → c.enable ≡ false
      → allow d req (some c) e ≡ (call_upstream d req e).0
  unfolding allow
  allow-disabled req c e h = rw h

  call_upstream-forwarded :
      (req : HttpRequest) (s : d.cache.State)
      → (call_upstream d req (start d req s)).0.forwarded ≡ (req, reusable_reader req.body) ∷ []
  unfolding call_upstream start
  call_upstream-forwarded req s = refl

  cache_miss-forwarded :
      (req : HttpRequest) (hash : String) (c : RuleCache) (e : Exchange d.cache.State)
      → (cache_miss d req hash c e).forwarded ≡ (req, e.reader) ∷ e.forwarded
  unfolding cache_miss call_upstream
  cache_miss-forwarded req hash c e = (store_reply-keeps hash c _ _).0

  abbrev pub whole : HttpRequest → HttpRequest × Reader
  whole req = (req, reusable_reader req.body)

  abbrev pub SentOnce : HttpRequest → Exchange d.cache.State → Type 0
  SentOnce req e = (e.forwarded ≡ []) ⊎ (e.forwarded ≡ whole req ∷ [])

  cached-SentOnce :
      (req : HttpRequest) (hash : String) (c : RuleCache) (s : d.cache.State) (cached : Bool)
      → let e = record (start d req s) { cache = (d.cache.has hash s).0 } in
        SentOnce req (if cached then cache_hit d hash e else cache_miss d req hash c e)
  unfolding start
  cached-SentOnce req hash c s true = inl (cache_hit-forwarded hash _)
  cached-SentOnce req hash c s false = inr (cache_miss-forwarded req hash c _)

  -- A request that is let through is answered from the cache, or sent upstream once with its whole
  -- body.
  pub allow-SentOnce :
      (req : HttpRequest) (c : Option RuleCache) (s : d.cache.State)
      → SentOnce req (allow d req c (start d req s))
  allow-SentOnce req none s =
      subst (SentOnce req) (sym (allow-none req (start d req s)))
        (inr (call_upstream-forwarded req s))
  allow-SentOnce req (some c) s = elim (Bool-cases c.enable) [
    | inl on ↦
        subst (SentOnce req) (sym (allow-cached req c s on))
          (cached-SentOnce req (key_of d req) c s (d.cache.has (key_of d req) s).1)
    | inr off ↦
        subst (SentOnce req) (sym (allow-disabled req c _ off))
          (inr (call_upstream-forwarded req s))
  ]

  -- Upstream sees a request only if the policy permits it: the first rule that decides allows it, or
  -- no rule decides and the default does. Then it sees it once, with its whole body, and its cache
  -- settings are those of that rule. A request that is not permitted is answered 401, and leaves the
  -- cache alone.
  pub serve_rules-guards :
      (rules : List (HttpRule d.globs.Glob)) (default : RuleAction) (req : HttpRequest)
      (s : d.cache.State)
      → let e = serve_rules d rules default req (start d req s) in
        ((c : Option RuleCache) × Outcome (view_of req) default rules (permit c)
          × (e ≡ allow d req c (start d req s))
          × SentOnce req e)
        ⊎ (Outcome (view_of req) default rules refuse
            × (e.forwarded ≡ [])
            × (e.cache ≡ s)
            × (e.writer.status ≡ some 401)
            × (e.writer.body ≡ utf8 "unauthorized"))
  serve_rules-guards rules default req s =
      guards (serve_rules-Outcome rules default req (start d req s))
    where
      guards :
          ((v : Verdict) × Outcome (view_of req) default rules v
            × (serve_rules d rules default req (start d req s) ≡ enforce req (start d req s) v))
          → ((c : Option RuleCache) × Outcome (view_of req) default rules (permit c)
              × (serve_rules d rules default req (start d req s) ≡ allow d req c (start d req s))
              × SentOnce req (serve_rules d rules default req (start d req s)))
            ⊎ (Outcome (view_of req) default rules refuse
                × ((serve_rules d rules default req (start d req s)).forwarded ≡ [])
                × ((serve_rules d rules default req (start d req s)).cache ≡ s)
                × ((serve_rules d rules default req (start d req s)).writer.status ≡ some 401)
                × ((serve_rules d rules default req (start d req s)).writer.body
                    ≡ utf8 "unauthorized"))
      guards (permit c, o, e) = inl (c, o, e, rw e (allow-SentOnce req c s))
      guards (refuse, o, e) =
          let h = deny-start req s in inr (o, rw e h.0, rw e h.1, rw e h.2, rw e h.3)
