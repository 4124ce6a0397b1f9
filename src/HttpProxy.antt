-- ===== src/HttpProxy.antt =====
-- pkg/cosmoguard/http_proxy.go: the proxy that guards an HTTP port, and caches the replies of its
-- upstream. Locks, logs and metrics are left out; a call is handled with the rules as they stand.
pub mod Laws
pub mod Caching
use cosmoguard.Prelude.{
  ℕ, suc, ◌&&◌, ◌||◌, not, List, [], ◌∷◌, ◌++◌, Bool, true, false, String, Option, none, some,
  length, if◌then◌else◌, nat_eq, string_eq, ◌==◌,
}
use cosmoguard.Go.{Bytes, utf8}
use cosmoguard.Glob.{Globs}
use cosmoguard.Cache.{Cache, found, failed}
use cosmoguard.Cache.Options.{Backing}
use cosmoguard.Rules
use cosmoguard.Rules.{RuleAction, RuleCache}
use cosmoguard.Util.{sha256}
use cosmoguard.Rules.Http.{HttpRule, Target, match}
use cosmoguard.HttpUtils.Reader.{Reader, reusable_reader, read_all}
use cosmoguard.HttpUtils.Writer.{
  Writer, new_writer, Call, add_header, respond, Wrapper, wrap, forward_all, write_data,
  write_error,
}

pub record HttpRequest : Type 0 where
  pub method : String
  pub url : String
  pub path : String
  pub body : Bytes

pub record CachedResponse : Type 0 where
  pub bytes : Bytes
  pub status_code : ℕ

pub record Endpoint : Type 0 where
  pub path : String
  pub method : String

-- The handlers of endpoints stand for themselves: the proxy only chooses one. A server and a reverse
-- proxy are their addresses, and a histogram is the namespace of its metric.
pub record HttpProxy (Glob Handler : Type 0) : Type 0 where
  pub default_action : RuleAction
  pub rules : List (HttpRule Glob)
  pub endpoint_handlers : List (List Endpoint × Handler)
  pub cache : Backing
  pub addr : String
  pub remote : String
  pub response_time_hist : Option String

unfoldable pub set_rules :
    {Glob Handler : Type 0}
    → HttpProxy Glob Handler
    → List (HttpRule Glob)
    → RuleAction
    → HttpProxy Glob Handler
set_rules p rules default = record p { rules = rules; default_action = default }

-- What is not under the repository: globs, SHA-256, the room of the buffer in `io.ReadAll`, and the
-- upstream behind `httputil.ReverseProxy`, as the calls that it makes on the writer. The cache is
-- one of pkg/cache.
pub record Deps : Type 1 where
  pub globs : Globs
  pub cache : Cache String CachedResponse
  pub sum256 : Bytes → Bytes
  pub room : ℕ → ℕ
  pub upstream : HttpRequest → Reader → List Call

-- The state of a request's handling: the body, the reply so far, the cache, and the requests that
-- were sent upstream, with the body that upstream finds.
pub record Exchange (State : Type 0) : Type 0 where
  pub reader : Reader
  pub writer : Writer
  pub cache : State
  pub forwarded : List (HttpRequest × Reader)

abbrev pub found_endpoint : String → String → List Endpoint → Bool
found_endpoint method path [] = false
found_endpoint method path (e ∷ es) =
    if e.method == method && e.path == path then true else found_endpoint method path es

-- The loops of `ServeHTTP` over the endpoint handlers: the first that lists the method and path.
unfoldable pub find_handler :
    {Handler : Type 0} → String → String → List (List Endpoint × Handler) → Option Handler
find_handler method path [] = none
find_handler method path ((es, h) ∷ hs) =
    if found_endpoint method path es then some h else find_handler method path hs

module _ (d : Deps) where
  abbrev State : Type 0
  State = d.cache.State

  -- Reading the body cannot fail, since it is in memory.
  unfoldable pub get_request_hash : HttpRequest → Reader → Reader × String
  get_request_hash req r =
      let (r', b) = read_all d.room (suc (length r.read_buf)) r [] in
      (r', sha256 d.sum256 (utf8 req.method ++ utf8 req.url ++ b))

  -- `p.proxy.ServeHTTP(ww, r)` with `ww` round the writer.
  unfoldable pub call_upstream :
      HttpRequest → Exchange d.cache.State → Exchange d.cache.State × Wrapper
  call_upstream req e =
      let ww = forward_all (wrap e.writer) (d.upstream req e.reader) in
      (record e { writer = ww.inner; forwarded = (req, e.reader) ∷ e.forwarded }, ww)

  unfoldable pub cache_hit : String → Exchange d.cache.State → Exchange d.cache.State
  cache_hit hash e =
      let (s, res) = d.cache.get hash e.cache in
      elim res [
        | failed err ↦ record e { cache = s }
        | found r ↦ record e {
          cache = s;
          writer =
              write_data e.writer r.status_code r.bytes
                ("Cache" ∷ "hit" ∷ "Content-Type" ∷ "application/json" ∷ []);
        }
      ]

  -- The end of `cacheMiss`: what is stored of upstream's reply.
  unfoldable pub store_reply :
      String → RuleCache → Wrapper → Exchange d.cache.State → Exchange d.cache.State
  store_reply hash cache ww e =
      if ww.status_code == 0 || (not (ww.status_code == 200) && not cache.cache_error)
      then e
      else record e {
        cache =
            (d.cache.set hash (record { bytes = ww.buf; status_code = ww.status_code }) cache.ttl
              e.cache).0;
      }

  unfoldable pub cache_miss :
      HttpRequest → String → RuleCache → Exchange d.cache.State → Exchange d.cache.State
  cache_miss req hash cache e =
      let (e', ww) =
        call_upstream req (record e { writer = respond e.writer (add_header "Cache" "miss") }) in
      store_reply hash cache ww e'

  unfoldable pub allow :
      HttpRequest → Option RuleCache → Exchange d.cache.State → Exchange d.cache.State
  allow req none e = (call_upstream req e).0
  allow req (some cache) e =
      if cache.enable
      then (let (r, hash) = get_request_hash req e.reader in
          let (s, cached, err) = d.cache.has hash e.cache in
          let e' = record e { reader = r; cache = s } in
          if cached then cache_hit hash e' else cache_miss req hash cache e')
      else (call_upstream req e).0

  unfoldable pub deny : Exchange d.cache.State → Exchange d.cache.State
  deny e = record e { writer = write_error e.writer 401 "unauthorized" [] }

  -- The loop of `ServeHTTP` over the rules, and the default action.
  unfoldable pub serve_rules :
      List (HttpRule d.globs.Glob)
      → RuleAction
      → HttpRequest
      → Exchange d.cache.State
      → Exchange d.cache.State
  serve_rules [] default req e = if default == Rules.allow then allow req none e else deny e
  serve_rules (rule ∷ rules) default req e =
      let rest = serve_rules rules default req e in
      if match d.globs rule (record { method = req.method; path = req.path })
      then (if rule.action == Rules.allow
          then allow req rule.cache e
          else if rule.action == Rules.deny
          then deny e
          else rest)
      else rest

  unfoldable pub start : HttpRequest → d.cache.State → Exchange d.cache.State
  start req s = record {
    reader = reusable_reader req.body;
    writer = new_writer;
    cache = s;
    forwarded = [];
  }

  pub data Served (Handler : Type 0) : Type 0 where
    delegated : Handler → Served Handler
    answered : Exchange d.cache.State → Served Handler

  unfoldable pub serve_http :
      {Handler : Type 0}
      → HttpProxy d.globs.Glob Handler
      → HttpRequest
      → d.cache.State
      → Served Handler
  serve_http p req s = elim (find_handler req.method req.path p.endpoint_handlers) [
    | some h ↦ delegated h
    | none ↦ answered (serve_rules p.rules p.default_action req (start req s))
  ]
