-- ===== src/Guard/Keys.antt =====
-- The keys that the parts of a guard use on a Redis server: cosmoguard.go and pkg/cache/redis.go.
use Prim.Native.String
use Prim.Native.Char.{Char}
use mathlib.Core.Option as O
use text.Mathlib.TextLemmas.{nil-append, cons-append, append_assoc, append_cancel_left}
use cosmoguard.Prelude.{
  ℕ, ◌≡◌, ◌≢◌, refl, sym, ap, ◌∙◌, true, List, [], String, Option, none, some, All, All-mem, Any,
  inl, inr,
}
use cosmoguard.Util.Separator.{is_free_of, up_to_separator}
use cosmoguard.Go.{ok, Bytes}
use cosmoguard.Cache.{Found}
use cosmoguard.Cache.Redis.{Target, RedisClient, MsgPack, get_key}
use cosmoguard.Cache.Options.{Backing, in_redis}
use cosmoguard.Config.{ConfigDeps, CacheGlobalConfig}
use cosmoguard.Guard.{CosmoGuard, made}
use cosmoguard.Guard.Parts.{Libraries}
use cosmoguard.Guard.New.{new}
use cosmoguard.Guard.Caches.{caches, optional, http, rpc, Backed, new-Backed}

abbrev Named : String × Backing → Type 0
Named x = is_free_of 58 x.0 ≡ true

optional_lem :
    (name : String) (o : Option Backing) (rest : List (String × Backing))
    → is_free_of 58 name ≡ true
    → All Named rest
    → All Named (optional name o rest)
optional_lem name none rest e f = f
optional_lem name (some b) rest e f = (e, f)

evm_lem :
    (a b c d : Option Backing)
    → All Named (
        optional "evm_jsonrpc" a
          (optional "evm_rpc" b (optional "evm_jsonrpc_ws" c (optional "evm_rpc_ws" d []))))
unfolding is_free_of
evm_lem a b c d =
    let ws = optional "evm_rpc_ws" d [] in
    let ws_rpc = optional "evm_jsonrpc_ws" c ws in
    optional_lem "evm_jsonrpc" a (optional "evm_rpc" b ws_rpc) refl (
      optional_lem "evm_rpc" b ws_rpc refl
        (optional_lem "evm_jsonrpc_ws" c ws refl (optional_lem "evm_rpc_ws" d [] refl tt)))

-- The names of the parts have no `:`.
caches-Named : {Glob : Type 0} (g : CosmoGuard Glob) → All Named (caches g)
unfolding is_free_of
caches-Named g = (
  refl,
  (
    refl,
    (
      refl,
      evm_lem (O.map rpc g.evm_json_rpc_handler) (O.map http g.evm_rpc_proxy)
          (O.map rpc g.evm_json_rpc_ws_handler) (O.map http g.evm_rpc_ws_proxy),
    ),
  ),
)

abbrev colon : Char
colon = String.char_at ":" 0

-- A key has the name of its part, whatever stands before and after.
same_name :
    (key name1 name2 s t : String)
    → is_free_of 58 name1 ≡ true
    → is_free_of 58 name2 ≡ true
    → String.◌++◌ (String.◌++◌ key name1) (String.◌++◌ ":" s)
      ≡ String.◌++◌ (String.◌++◌ key name2) (String.◌++◌ ":" t)
    → name1 ≡ name2
same_name key name1 name2 s t f g e = up_to_separator colon name1 name2 s t f g (
    ap (String.◌++◌ name1) (sym (sep s))
    ∙ append_cancel_left key _ _ (sym (append_assoc key name1 _) ∙ e ∙ append_assoc key name2 _)
    ∙ ap (String.◌++◌ name2) (sep t))
  where
    sep : (x : String) → String.◌++◌ ":" x ≡ String.◌∷◌ colon x
    sep x = cons-append colon String.[] x ∙ ap (String.◌∷◌ colon) (nil-append x)

Backed-namespace :
    (c : CacheGlobalConfig) (name ns : String) (b : Backing) (t : Target) (ttl : ℕ)
    → Backed c (name, b)
    → b ≡ in_redis t ns ttl
    → ns ≡ String.◌++◌ c.key name
Backed-namespace c name ns b t ttl (inl (r, k, e)) h = absurd (let x = sym e ∙ h in cc)
Backed-namespace c name ns b t ttl (inr (t2, k, m, e)) h = let x = sym h ∙ e in cc

module _ {K1 V1 K2 V2 : Type 0} (client1 client2 : RedisClient) (pack1 : MsgPack V1)
    (pack2 : MsgPack V2) (show1 : K1 → String) (show2 : K2 → String) where
  -- What two parts of a guard keep on the Redis server never stands under the same key, whatever they
  -- keep and however they write their keys.
  pub new-keys_apart :
      (d : ConfigDeps) (lib : Libraries) (file : Found Bytes) (g : CosmoGuard d.globs.Glob)
      (name1 name2 ns1 ns2 : String) (t1 t2 : Target) (ttl1 ttl2 : ℕ) (k1 : K1) (k2 : K2)
      → new d lib file ≡ ok (made g)
      → Any (λ x. x ≡ (name1, in_redis t1 ns1 ttl1)) (caches g)
      → Any (λ x. x ≡ (name2, in_redis t2 ns2 ttl2)) (caches g)
      → name1 ≢ name2
      → get_key client1 pack1 show1 ns1 ttl1 k1 ≢ get_key client2 pack2 show2 ns2 ttl2 k2
  unfolding get_key
  new-keys_apart d lib file g name1 name2 ns1 ns2 t1 t2 ttl1 ttl2 k1 k2 e m1 m2 ne h =
      let (c, l, all) = new-Backed d lib file g e in
      let p1 = All-mem (Backed c.cache) (caches g) _ all m1 in
      let p2 = All-mem (Backed c.cache) (caches g) _ all m2 in
      ne (
        same_name c.cache.key name1 name2 (show1 k1) (show2 k2)
          (All-mem Named (caches g) _ (caches-Named g) m1)
          (All-mem Named (caches g) _ (caches-Named g) m2)
          (ap (λ n. String.◌++◌ n (String.◌++◌ ":" (show1 k1)))
              (sym (Backed-namespace c.cache name1 ns1 _ t1 ttl1 p1 refl))
            ∙ h
            ∙ ap (λ n. String.◌++◌ n (String.◌++◌ ":" (show2 k2)))
                (Backed-namespace c.cache name2 ns2 _ t2 ttl2 p2 refl)))
