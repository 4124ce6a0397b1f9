-- ===== src/Cache/Redis.antt =====
-- `RedisCache` of pkg/cache/redis.go, with `EncodeValue` and `DecodeValue` of cache.go. The client of
-- github.com/redis/go-redis and the codec of vmihailenco/msgpack are parameters, and so is the `%v`
-- of a key.
pub mod Laws
use Prim.Native.String
use cosmoguard.Prelude.{
  ℕ, Bool, true, false, String, List, is_nil, not, ◌&&◌, Option, none, some, ltb, if◌then◌else◌,
  nat_eq, string_eq, ◌==◌,
}
use cosmoguard.Go.{Bytes}
use cosmoguard.Cache.{Cache, Found, found, failed, Error}
use cosmoguard.Cache.Memory.{err_not_found}

-- The reply to `GET`: the bytes, `redis.Nil`, or another error.
pub data Reply : Type 0 where
  bytes : Bytes → Reply
  nil_reply : Reply
  broken : Error → Reply

pub record RedisClient : Type 1 where
  pub State : Type 0
  pub set : String → Bytes → ℕ → State → State × Option Error
  pub get : String → State → State × Reply
  pub exists : String → State → State × ℕ × Option Error

pub record MsgPack (V : Type 0) : Type 0 where
  pub marshal : V → Found Bytes
  pub unmarshal : Bytes → V × Option Error

module _ {V : Type 0} (pack : MsgPack V) where
  unfoldable pub encode_value : V → Found Bytes
  encode_value v = pack.marshal v

  unfoldable pub decode_value : Bytes → Found V
  decode_value b =
      let (v, err) = pack.unmarshal b in elim err [ none ↦ found v | some e ↦ failed e ]

-- `RedisSentinel`, and the choice of `NewRedisCache` between its two ways to connect.
pub record RedisSentinel : Type 0 where
  pub master_name : String
  pub addrs : List String

pub data Target : Type 0 where
  failover : RedisSentinel → Target
  single : String → Target
  missing : Target

abbrev usable : RedisSentinel → Bool
usable s = not (s.master_name == "") && not (is_nil s.addrs)

by_url : Option String → Target
by_url none = missing
by_url (some url) = single url

unfoldable pub connect_to : Option String → Option RedisSentinel → Target
unfolding by_url
connect_to url none = by_url url
connect_to url (some s) = if usable s then failover s else by_url url

module _ {K V : Type 0} (client : RedisClient) (pack : MsgPack V) (show : K → String)
    (namespace : String) (default_ttl : ℕ) where
  unfoldable pub get_key : K → String
  get_key k = String.◌++◌ namespace (String.◌++◌ ":" (show k))

  unfoldable pub set : K → V → ℕ → client.State → client.State × Option Error
  unfolding encode_value get_key
  set k v ttl s =
      let item_ttl = if ttl == 0 then default_ttl else ttl in
      elim (encode_value pack v) [
        | failed err ↦ (s, some err)
        | found b ↦ client.set (get_key k) b item_ttl s
      ]

  by_reply : Reply → Found V
  unfolding decode_value
  by_reply (bytes b) = decode_value pack b
  by_reply nil_reply = failed err_not_found
  by_reply (broken err) = failed err

  unfoldable pub get : K → client.State → client.State × Found V
  unfolding by_reply get_key
  get k s = let (s', reply) = client.get (get_key k) s in (s', by_reply reply)

  unfoldable pub has : K → client.State → client.State × Bool × Option Error
  unfolding get_key
  has k s = let (s', n, err) = client.exists (get_key k) s in (s', ltb 0 n, err)

  abbrev pub redis_cache : Cache K V
  redis_cache = record { State = client.State; set = set; get = get; has = has }
