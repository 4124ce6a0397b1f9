-- ===== src/Ws/Proxy/Caching.antt =====
-- Answers that the websocket proxy of ws_proxy.go stores and replays.
use cosmoguard.Prelude.{ℕ, ◌≡◌, ◌++◌, refl, sym, ap, ◌∙◌, true, false, Option, none, some}
use cosmoguard.Go.{ok, ok-injective, utf8}
use cosmoguard.Cache.{found}
use cosmoguard.Rules.{RuleCache}
use cosmoguard.HttpProxy.Caching.{Keeps}
use cosmoguard.JsonRpc.Msg.{JsonRpcMsg, Codec, hash, clone_with_id}
use cosmoguard.JsonRpc.Responses.{is_storable, is_nil_value}
use cosmoguard.Ws.Client
use cosmoguard.Ws.Client.{WsError}
use cosmoguard.Ws.Proxy.{WsDeps, State, value, send, forward, store, allow}

hash_same :
    (c : Codec) (a b : JsonRpcMsg) → a.method ≡ b.method → a.params ≡ b.params → hash c a ≡ hash c b
unfolding hash
hash_same c a b m p =
    λ i. elim (c.marshal_value (p i)) [ none ↦ 0 | some x ↦ c.fnv1a (utf8 (m i) ++ x) ]

storable :
    (c : RuleCache) (m : JsonRpcMsg)
    → m.error ≡ none
    → is_nil_value m.result ≡ false
    → is_storable c m ≡ true
unfolding is_storable
storable c m e r = rw (e, r) refl

module _ (d : WsDeps) where
  miss_lem :
      (req : JsonRpcMsg) (c : RuleCache) (s s' : State d) (res : JsonRpcMsg)
      → (d.cache.has (hash d.codec req) s.cache).1 ≡ false
      → forward d req (record s { cache = (d.cache.has (hash d.codec req) s.cache).0 })
        ≡ ok (s', value res)
      → allow d req (some c) s ≡ ok (store d (hash d.codec req) c (value res) s')
  unfolding allow
  miss_lem req c s s' res miss asked = rw (miss, asked) refl

  stored_lem :
      (key : ℕ) (c : RuleCache) (s : State d) (res : JsonRpcMsg)
      → is_storable c res ≡ true
      → (store d key c (value res) s).0.cache ≡ (d.cache.set key res c.ttl s.cache).0
  unfolding store
  stored_lem key c s res keeps = rw (keeps, store) refl

  -- The state after a hit, before the answer is sent.
  abbrev after_hit : ℕ → State d → State d
  after_hit key t = record t { cache = (d.cache.get key (d.cache.has key t.cache).0).0 }

  hit_lem :
      (req : JsonRpcMsg) (c : RuleCache) (t : State d) (res : JsonRpcMsg)
      → (d.cache.has (hash d.codec req) t.cache).1 ≡ true
      → (d.cache.get (hash d.codec req) (d.cache.has (hash d.codec req) t.cache).0).1 ≡ found res
      → allow d req (some c) t
        ≡ ok (send d (clone_with_id res req.id) (after_hit (hash d.codec req) t))
  unfolding allow
  hit_lem req c t res hit held = rw (hit, held) refl

  -- Once an answer with a result was stored, it is replayed to every equal request, whoever sends
  -- it, under the id of that request, while the cache holds it. The broker is not asked: where the
  -- request is one to subscribe, the client that gets the stored answer joins no subscription.
  pub allow_replays_answer :
      (keeps : Keeps d.cache) (c : RuleCache) (req other : JsonRpcMsg) (s s' stored t : State d)
      (sent : Option WsError) (res : JsonRpcMsg)
      → other.method ≡ req.method
      → other.params ≡ req.params
      → (d.cache.has (hash d.codec req) s.cache).1 ≡ false
      → forward d req (record s { cache = (d.cache.has (hash d.codec req) s.cache).0 })
        ≡ ok (s', value res)
      → res.error ≡ none
      → is_nil_value res.result ≡ false
      → allow d req (some c) s ≡ ok (stored, sent)
      → t.cache ≡ stored.cache
      → (u : State d) × (err : Option WsError) × (allow d other (some c) t ≡ ok (u, err))
        × (u.broker ≡ t.broker)
        × (u.client ≡ (Client.send_msg d.net d.codec (clone_with_id res other.id) t.client).0)
  unfolding send
  allow_replays_answer keeps c req other s s' stored t sent res em ep miss asked noerr some_result
        allowed same =
      let key = hash d.codec other in
      let eq : key ≡ hash d.codec req = hash_same d.codec other req em ep in
      let now : stored.cache ≡ (store d (hash d.codec req) c (value res) s').0.cache =
        ap (λ (x : State d × Option WsError). x.0.cache)
          (ok-injective (sym allowed ∙ miss_lem req c s s' res miss asked)) in
      let held : t.cache ≡ (d.cache.set key res c.ttl s'.cache).0 =
        rw eq (
          same ∙ now ∙ stored_lem (hash d.codec req) c s' res (storable c res noerr some_result)) in
      let k = keeps key res c.ttl s'.cache in
      let r = send d (clone_with_id res other.id) (after_hit key t) in
      (r.0, r.1, hit_lem other c t res (rw held k.0) (rw held k.1), refl, refl)
