-- ===== src/Tests/Samples.antt =====
-- Concrete stand-ins for the libraries and services that the development takes as parameters.
use cosmoguard.Prelude.{
  ℕ, suc, ◌≡◌, refl, ap, ◌∙◌, ◌||◌, List, [], ◌∷◌, true, false, String, Option, none, some, lookup,
  insert, lookup-insert, is_some, Eq, beq_refl, nat_eq, string_eq, ◌==◌, if◌then◌else◌, length,
}
use cosmoguard.Go.{int, utf8}
use cosmoguard.Glob.{Globs}
use cosmoguard.Cache.{Cache, found, failed}
use cosmoguard.Rules.{RuleCache}
use cosmoguard.HttpUtils.Writer.{set_header, write_header, write}
use cosmoguard.HttpProxy.{Deps, HttpRequest}
use cosmoguard.HttpProxy.Caching.{Keeps}
use cosmoguard.JsonRpc.Msg.{JsonRpcMsg, Codec, blank}
use cosmoguard.JsonRpc.Handler.{RpcDeps}
use cosmoguard.Ws.{got}
use cosmoguard.Ws.Pool.{UpstreamConnManager}

-- Patterns that match one text, or with a star any; an open bracket is refused.
abbrev pub globs : Globs
globs = record {
  Glob = String;
  compile = λ p seps. if p == "[" then none else some p;
  matches = λ g s. g == s || g == "*";
}

-- A cache whose entries never run out.
abbrev pub table : {K V : Type 0} ⦃e : Eq K⦄ → Cache K V
table {K} {V} = record {
  State = List (K × V);
  set = λ k v ttl s. (insert k v s, none);
  get = λ k s. (s, elim (lookup k s) [ none ↦ failed "not found" | some v ↦ found v ]);
  has = λ k s. (s, is_some (lookup k s), none);
}

held :
    {K V : Type 0} ⦃e : Eq K⦄ (k : K) (v : V) (s : List (K × V)) → lookup k (insert k v s) ≡ some v
held k v s = lookup-insert k k v s ∙ rw (beq_refl k) refl

pub table-Keeps : {K V : Type 0} ⦃e : Eq K⦄ → Keeps (table {K = K} {V = V})
table-Keeps {V} k v ttl s = (
  ap is_some (held k v s),
  ap (λ (o : Option V). elim o [ none ↦ failed "not found" | some w ↦ found w ]) (held k v s),
)

-- An upstream that greets every request with status 200.
abbrev pub deps : Deps
deps = record {
  globs = globs;
  cache = table;
  sum256 = λ b. b;
  room = λ n. 511;
  upstream = λ req body.
      set_header "Content-Type" "text/plain" ∷ write_header 200 ∷ write (utf8 "hi") ∷ [];
}

abbrev pub get_request : HttpRequest
get_request = record { method = "GET"; url = "/status?x"; path = "/status"; body = 1 ∷ 2 ∷ [] }

abbrev pub cached : RuleCache
cached = record { enable = true; ttl = 5; cache_error = false; cache_empty_result = false }

-- Messages are decoded to a fixed one, and encoded by their number.
abbrev pub codec : Codec
codec = record {
  unmarshal_one = λ b. (blank (int 1), none);
  unmarshal_many = λ b. (some (blank (int 1)) ∷ [], none);
  marshal_one = λ m. some (utf8 m.method);
  marshal_many = λ ms. some (length ms ∷ []);
  marshal_value = λ v. some [];
  fnv1a = length;
}

abbrev pub rpc_deps : RpcDeps
rpc_deps = record {
  globs = globs;
  cache = table;
  codec = codec;
  room = λ n. 511;
  next = λ req body. write (utf8 "[]") ∷ [];
}

abbrev pub message : String → ℕ → JsonRpcMsg
message method id = record (blank (int id)) { method = method }

-- Connections that count their calls, and name a subscription after its parameter.
abbrev pub upstream : UpstreamConnManager
upstream = record {
  Conn = ℕ;
  make_request = λ msg c. (suc c, got msg);
  subscribe = λ param c. (suc c, got param);
  unsubscribe = λ id c. (suc c, none);
}
