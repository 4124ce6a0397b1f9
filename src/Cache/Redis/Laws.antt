-- ===== src/Cache/Redis/Laws.antt =====
-- What the proxies rely on of `RedisCache`, pkg/cache/redis.go.
use cosmoguard.Prelude.{if◌then◌else◌, ◌==◌, nat_eq, ℕ, ◌≡◌, ◌<◌, refl, ap, String, none, arith}
use cosmoguard.Go.{Bytes}
use cosmoguard.Cache.{found}
use cosmoguard.Cache.Redis.{
  RedisClient, MsgPack, bytes, encode_value, decode_value, get_key, set, get, has, redis_cache,
  by_reply,
}
use cosmoguard.HttpProxy.Caching.{Keeps}

-- A server that holds what it was last given under a key, while the entry lives.
abbrev pub Holds : RedisClient → Type 0
Holds c =
    (k : String) (b : Bytes) (ttl : ℕ) (s : c.State)
    → let s1 = (c.set k b ttl s).0 in
      (0 < (c.exists k s1).1) × ((c.get k (c.exists k s1).0).1 ≡ bytes b)

-- What is encoded is decoded again.
abbrev pub RoundTrips : {V : Type 0} → MsgPack V → Type 0
RoundTrips {V} p = (v : V) → (b : Bytes) × (p.marshal v ≡ found b) × (p.unmarshal b ≡ (v, none))

module _ {K V : Type 0} (client : RedisClient) (pack : MsgPack V) (show : K → String)
    (namespace : String) (default_ttl : ℕ) where
  abbrev item_ttl : ℕ → ℕ
  item_ttl ttl = if ttl == 0 then default_ttl else ttl

  abbrev slot : K → String
  slot k = get_key client pack show namespace default_ttl k

  set-set :
      (k : K) (v : V) (b : Bytes) (ttl : ℕ) (s : client.State)
      → pack.marshal v ≡ found b
      → set client pack show namespace default_ttl k v ttl s
        ≡ client.set (slot k) b (item_ttl ttl) s
  unfolding set encode_value
  set-set k v b ttl s enc = rw (enc, set, encode_value) refl

  get-found :
      (k : K) (v : V) (b : Bytes) (s : client.State)
      → pack.unmarshal b ≡ (v, none)
      → (client.get (slot k) s).1 ≡ bytes b
      → (get client pack show namespace default_ttl k s).1 ≡ found v
  unfolding get by_reply decode_value
  get-found k v b s dec kept =
      rw (kept, get, by_reply, decode_value, ap (λ x. x.1) dec) (ap (λ x. found x.0) dec)

  -- A Redis cache keeps what it is given, under any namespace and default lifetime, if the server
  -- holds its entries and the codec decodes what it encodes.
  pub redis_cache-Keeps :
      Holds client → RoundTrips pack → Keeps (redis_cache client pack show namespace default_ttl)
  unfolding has
  redis_cache-Keeps holds trips k v ttl s =
      let (b, enc, dec) = trips v in
      let (alive, kept) = holds (slot k) b (item_ttl ttl) s in
      rw (set-set k v b ttl s enc) (ground arith, get-found k v b _ dec kept)
