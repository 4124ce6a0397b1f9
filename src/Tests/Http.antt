-- ===== src/Tests/Http.antt =====
-- The theorems on the HTTP and gRPC proxies at concrete requests.
use cosmoguard.Prelude.{
  ◌≡◌, refl, ◌⊎◌, inl, List, [], ◌∷◌, true, false, String, Option, some, arith, string_eq, lookup,
  is_some,
}
use text.Mathlib.Text.{starts_with}
use cosmoguard.Go.{utf8}
use cosmoguard.Rules.{RuleCache, allow, deny}
use cosmoguard.Rules.Http.{HttpRule}
use cosmoguard.Policy.{Verdict, permit, refuse}
use cosmoguard.Policy.Laws.{Outcome}
use cosmoguard.HttpUtils.Reader.{reusable_reader, read_all}
use cosmoguard.HttpUtils.Reader.Laws.{read_all_restores}
use cosmoguard.HttpUtils.Writer.{Call, set_header, write_header, write, forward_all}
use cosmoguard.HttpProxy
use cosmoguard.HttpProxy.{CachedResponse, Exchange, serve_rules, start}
use cosmoguard.HttpProxy.Laws
use cosmoguard.HttpProxy.Laws.{SentOnce, serve_rules-guards}
use cosmoguard.HttpProxy.Caching.{upstream_reply, allow_replays}
use cosmoguard.GrpcProxy.{GrpcProxy, forwarded_with_metadata, handle}
use cosmoguard.GrpcProxy.Laws as GrpcLaws
use cosmoguard.GrpcProxy.Laws.{handle-Outcome}
use cosmoguard.Tests.Samples.{globs, deps, get_request, cached, table-Keeps}

abbrev rules : List (HttpRule String)
rules =
    record {
      priority = 1;
      action = allow;
      paths = "/status" ∷ [];
      methods = [];
      cache = some cached;
      path_globs = "/status" ∷ [];
    }
    ∷ []

-- The exchange that the sample request leaves.
abbrev served : Exchange (List (String × CachedResponse))
served = serve_rules deps rules deny get_request (start deps get_request [])

serve_rules-guards_example :
    ((c : Option RuleCache) × Outcome (Laws.view_of deps get_request) deny rules (permit c)
      × (served ≡ HttpProxy.allow deps get_request c (start deps get_request []))
      × SentOnce deps get_request served)
    ⊎ (Outcome (Laws.view_of deps get_request) deny rules refuse
        × (served.forwarded ≡ [])
        × (served.cache ≡ [])
        × (served.writer.status ≡ some 401)
        × (served.writer.body ≡ utf8 "unauthorized"))
serve_rules-guards_example = serve_rules-guards deps rules deny get_request []

abbrev first : Exchange (List (String × CachedResponse))
first = HttpProxy.allow deps get_request (some cached) (start deps get_request [])

abbrev second : Exchange (List (String × CachedResponse))
second = HttpProxy.allow deps get_request (some cached) (start deps get_request first.cache)

empty_table : (k : String) → is_some (lookup {V = CachedResponse} k []) ≡ false
unfolding lookup
empty_table k = refl

replied : (upstream_reply deps get_request).status_code ≡ 200
unfolding forward_all
replied = refl

allow_replays_example :
    (second.writer.status ≡ first.writer.status)
    × (second.writer.body ≡ first.writer.body)
    × (second.forwarded ≡ [])
allow_replays_example =
    allow_replays deps get_request cached [] table-Keeps refl (empty_table _) (omega arith, tt)
      (λ e. absurd (let z = replied in omega arith)) (inl replied)

read_all_restores_example :
    read_all (λ n. 2) 4 (reusable_reader (7 ∷ 8 ∷ 9 ∷ [])) []
    ≡ (reusable_reader (7 ∷ 8 ∷ 9 ∷ []), 7 ∷ 8 ∷ 9 ∷ [])
read_all_restores_example = read_all_restores (λ n. 2) 4 (7 ∷ 8 ∷ 9 ∷ []) (omega arith)

abbrev calls : List Call
calls = set_header "A" "b" ∷ write_header 404 ∷ write (1 ∷ []) ∷ write (2 ∷ []) ∷ []

abbrev grpc_proxy : GrpcProxy String
grpc_proxy = record {
  listener = "";
  client = "";
  default_action = deny;
  rules =
      record {
        priority = 1;
        action = allow;
        methods = "/cosmos.bank.Query/Balance" ∷ [];
        method_globs = "/cosmos.bank.Query/Balance" ∷ [];
      }
      ∷ [];
}

handle-Outcome_example :
    ((starts_with "/cosmos.bank.Query/Balance" "/grpc.reflection" ≡ true)
      × (handle globs grpc_proxy "/cosmos.bank.Query/Balance" ≡ forwarded_with_metadata))
    ⊎ ((starts_with "/cosmos.bank.Query/Balance" "/grpc.reflection" ≡ false)
        × ((v : Verdict) × Outcome
              (GrpcLaws.view_of globs "/cosmos.bank.Query/Balance")
              deny
              grpc_proxy.rules
              v
            × (handle globs grpc_proxy "/cosmos.bank.Query/Balance" ≡ GrpcLaws.enforce globs v)))
handle-Outcome_example = handle-Outcome globs grpc_proxy "/cosmos.bank.Query/Balance"
