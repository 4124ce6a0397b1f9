-- ===== src/HttpProxy/Caching.antt =====
-- Replies that the HTTP proxy stores and replays.
use cosmoguard.Prelude.{
  ℕ, ◌≤◌, ◌≡◌, ◌≢◌, refl, ◌∙◌, ◌⊎◌, [], true, false, Option, none, some, arith, string_eq,
}
use cosmoguard.Cache.{Cache, found}
use cosmoguard.Rules.{RuleCache}
use cosmoguard.HttpUtils.Reader.{reusable_reader}
use cosmoguard.HttpUtils.Writer.{new_writer, add_header, respond, Wrapper, wrap, forward_all}
use cosmoguard.HttpUtils.Writer.Laws.{IsPlain, Agrees, wrap_mirrors, wrap-Agrees, write_data-fresh}
use cosmoguard.HttpProxy.{
  HttpRequest, CachedResponse, Deps, call_upstream, cache_hit, store_reply, cache_miss, allow,
  start,
}
use cosmoguard.HttpProxy.Laws.{key_of, allow-cached, store_reply-keeps, cache_hit-forwarded}

-- What the proxy relies on while an entry lives: after a `Set` a `Has` finds the key, and then a
-- `Get` finds the value.
abbrev pub Keeps : {K V : Type 0} → Cache K V → Type 0
Keeps {K} {V} c =
    (k : K) (v : V) (ttl : ℕ) (s : c.State)
    → let s1 = (c.set k v ttl s).0 in
      ((c.has k s1).1 ≡ true) × ((c.get k (c.has k s1).0).1 ≡ found v)

module _ (d : Deps) where
  -- The reply of upstream, as the wrapper of `cacheMiss` sees it.
  abbrev pub upstream_reply : HttpRequest → Wrapper
  upstream_reply req =
      forward_all (wrap (respond new_writer (add_header "Cache" "miss")))
        (d.upstream req (reusable_reader req.body))

  abbrev stored : Wrapper → CachedResponse
  stored ww = record { bytes = ww.buf; status_code = ww.status_code }

  -- A miss sends upstream's reply to the client, and stores it where the rule says so.
  miss_lem :
      (req : HttpRequest) (c : RuleCache) (s0 s : d.cache.State)
      → let e = cache_miss d req (key_of d req) c (record (start d req s0) { cache = s }) in
        let ww = upstream_reply req in
        (e.writer ≡ ww.inner)
        × ((ww.status_code ≢ 0)
            → ((ww.status_code ≡ 200) ⊎ (c.cache_error ≡ true))
            → e.cache ≡ (d.cache.set (key_of d req) (stored ww) c.ttl s).0)
  unfolding cache_miss call_upstream store_reply start
  miss_lem req c s0 s =
      ((store_reply-keeps d (key_of d req) c (upstream_reply req) _).1, λ z ok. ground arith)

  -- A hit sends what the cache holds.
  hit_lem :
      (req : HttpRequest) (s0 s : d.cache.State) (r : CachedResponse)
      → (d.cache.get (key_of d req) s).1 ≡ found r
      → 200 ≤ r.status_code
      → let e = cache_hit d (key_of d req) (record (start d req s0) { cache = s }) in
        (e.writer.status ≡ some r.status_code) × (e.writer.body ≡ r.bytes)
  unfolding cache_hit start
  hit_lem req s0 s r h b = ground (
    arith,
    write_data-fresh new_writer r.status_code r.bytes "Cache" "Content-Type" "hit"
        "application/json" refl b,
  )

  first_lem :
      (req : HttpRequest) (c : RuleCache) (s : d.cache.State)
      → c.enable ≡ true
      → (d.cache.has (key_of d req) s).1 ≡ false
      → allow d req (some c) (start d req s)
        ≡ cache_miss d req
            (key_of d req)
            c
            (record (start d req s) { cache = (d.cache.has (key_of d req) s).0 })
  first_lem req c s on missed = rw (allow-cached d req c s on, missed)

  second_lem :
      (req : HttpRequest) (c : RuleCache) (s : d.cache.State) (r : CachedResponse)
      → c.enable ≡ true
      → (d.cache.has (key_of d req) s).1 ≡ true
      → (d.cache.get (key_of d req) (d.cache.has (key_of d req) s).0).1 ≡ found r
      → 200 ≤ r.status_code
      → let e = allow d req (some c) (start d req s) in
        (e.writer.status ≡ some r.status_code) × (e.writer.body ≡ r.bytes) × (e.forwarded ≡ [])
  second_lem req c s r on present value final =
      let hit = hit_lem req s (d.cache.has (key_of d req) s).0 r value final in
      rw (allow-cached d req c s on, present)
        (hit.0, hit.1, cache_hit-forwarded d (key_of d req) _ ∙ unfold start in refl)

  Agrees-some : (o : Option ℕ) (n : ℕ) → Agrees o n → n ≢ 0 → (o ≡ some n) × (200 ≤ n)
  Agrees-some none n a z = absurd (z a)
  Agrees-some (some c) n a z = ground arith

  -- A reply that is stored is replayed: after a miss whose reply has status 200, or any status where
  -- the rule caches errors too, an equal request on the resulting cache is answered with the same
  -- status and body, and upstream is not asked again. The reply has its headers first and one final
  -- status at most, and the cache still holds the entry.
  pub allow_replays :
      (req : HttpRequest) (c : RuleCache) (s : d.cache.State)
      → Keeps d.cache
      → c.enable ≡ true
      → (d.cache.has (key_of d req) s).1 ≡ false
      → IsPlain (d.upstream req (reusable_reader req.body))
      → (upstream_reply req).status_code ≢ 0
      → ((upstream_reply req).status_code ≡ 200) ⊎ (c.cache_error ≡ true)
      → let first = allow d req (some c) (start d req s) in
        let second = allow d req (some c) (start d req first.cache) in
        (second.writer.status ≡ first.writer.status)
        × (second.writer.body ≡ first.writer.body)
        × (second.forwarded ≡ [])
  allow_replays req c s keeps on missed plain nz ok =
      let ww = upstream_reply req in
      let s1 = (d.cache.has (key_of d req) s).0 in
      let first = first_lem req c s on missed in
      let (wrote, put) = miss_lem req c s s1 in
      let kept = keeps (key_of d req) (stored ww) c.ttl s1 in
      let w = respond new_writer (add_header "Cache" "miss") in
      let cs = d.upstream req (reusable_reader req.body) in
      let mirrors = wrap_mirrors cs w (unfold respond in refl) in
      let agrees = wrap-Agrees cs w (unfold respond in refl) plain in
      let (sent, final) = Agrees-some ww.inner.status ww.status_code agrees nz in
      let (status, body, alone) =
        second_lem req c (d.cache.set (key_of d req) (stored ww) c.ttl s1).0 (stored ww) on kept.0
          kept.1 final in
      rw (first, wrote, put nz ok) (rw (status, body, sent, mirrors.1) (refl, refl, alone))
