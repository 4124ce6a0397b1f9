-- ===== src/Tests/Rules.antt =====
-- The theorems on the rules at concrete rules and requests.
use cosmoguard.Prelude.{
  ◌≡◌, ◌≢◌, refl, ◌↔◌, ◌⊎◌, Bool, true, false, List, [], ◌∷◌, String, none, Any, string_eq, eq_iff,
  insert, lookup, arith,
}
use cosmoguard.Go.{
  ok, panic, index_out_of_range, bool, str, slice, dict, empty, item, end, field, as_string,
  equal_fold, Fields, index, itoa,
}
use cosmoguard.Glob.{compile_all, must_compile}
use cosmoguard.Rules.{allow}
use cosmoguard.Rules.Http
use cosmoguard.Rules.Http.{HttpRule, Target}
use cosmoguard.Rules.Grpc
use cosmoguard.Rules.Grpc.{GrpcRule}
use cosmoguard.Rules.JsonRpc
use cosmoguard.Rules.JsonRpc.{JsonRpcRule}
use cosmoguard.Rules.Patterns.{Matches, Http-compile-match_iff}
use cosmoguard.Rules.Params.{AllFields, Agrees}
use cosmoguard.Rules.Calls.{AcceptsMethod, compile-match_iff}
use cosmoguard.Rules.Panics.{match_short_panics, match_total}
use cosmoguard.Tests.Samples.{globs}

abbrev status_rule : List String → HttpRule String
status_rule path_globs = record {
  priority = 10;
  action = allow;
  paths = "/status" ∷ [];
  methods = "get" ∷ [];
  cache = none;
  path_globs = path_globs;
}

abbrev get_status : Target
get_status = record { method = "GET"; path = "/status" }

status_rule_compiles : Http.compile globs (status_rule []) ≡ ok (status_rule ("/status" ∷ []))
unfolding Http.compile compile_all must_compile
status_rule_compiles = refl

Http-compile-match_iff_example :
    (Http.match globs (status_rule ("/status" ∷ [])) get_status ≡ true) ↔ (
      (((status_rule []).methods ≡ []) ⊎ Any (λ m. equal_fold m "GET" ≡ true) ("get" ∷ []))
      × (((status_rule []).paths ≡ []) ⊎ Any (Matches globs ("/" ∷ []) "/status") ("/status" ∷ [])))
Http-compile-match_iff_example =
    Http-compile-match_iff globs (status_rule []) (status_rule ("/status" ∷ [])) get_status
      status_rule_compiles

abbrev query_rule : List String → GrpcRule String
query_rule method_globs = record {
  priority = 10;
  action = allow;
  methods = "*" ∷ [];
  method_globs = method_globs;
}

query_rule_compiles : Grpc.compile globs (query_rule []) ≡ ok (query_rule ("*" ∷ []))
unfolding Grpc.compile compile_all must_compile
query_rule_compiles = refl

abbrev tx_params : Fields
tx_params = field "hash" (str "AB") (field "prove" (bool true) end)

abbrev tx_rule : JsonRpcRule String
tx_rule = record {
  priority = 10;
  action = allow;
  methods = "tx" ∷ [];
  params = dict tx_params;
  cache = none;
  method_globs = [];
  params_globs = [];
  params_map = false;
  params_slice = false;
}

abbrev tx_rule_compiled : JsonRpcRule String
tx_rule_compiled = record tx_rule {
  method_globs = "tx" ∷ [];
  params_globs = ("hash", "AB") ∷ [];
  params_map = true;
}

tx_rule_compiles : JsonRpc.compile globs tx_rule ≡ ok tx_rule_compiled
unfolding JsonRpc.compile JsonRpc.compile_methods JsonRpc.compile_params JsonRpc.compile_fields
    compile_all must_compile insert
tx_rule_compiles = refl

keys_differ : ◌≢◌ {A = String} "hash" "prove"
keys_differ e = absurd (let q = (eq_iff "hash" "prove").1 e in cc)

compile-match_iff_example :
    (JsonRpc.match globs tx_rule_compiled "tx" (dict tx_params) ≡ ok true) ↔ (
      AcceptsMethod globs ("tx" ∷ []) "tx"
      × AllFields (λ k v. Agrees globs (as_string v) tx_params k v) tx_params)
compile-match_iff_example =
    compile-match_iff globs tx_rule tx_rule_compiled tx_params tx_params "tx" tx_rule_compiles refl
      ((keys_differ, tt), (tt, tt)) refl refl

-- A rule with two parameters, the first of which is `*`.
abbrev call_rule : JsonRpcRule String
call_rule = record {
  priority = 10;
  action = allow;
  methods = [];
  params = slice (item (str "*") (item (str "latest") empty));
  cache = none;
  method_globs = [];
  params_globs = ("0", "*") ∷ ("1", "latest") ∷ [];
  params_map = false;
  params_slice = true;
}

first_param :
    JsonRpc.match_values globs call_rule.params_globs 0
      (item (str "*") empty)
      (item (str "0x1") empty)
    ≡ ok true
unfolding JsonRpc.match_values JsonRpc.param_match index lookup itoa
first_param = refl

any_method : JsonRpc.method_match globs [] "eth_call" true ≡ true
unfolding JsonRpc.method_match
any_method = refl

match_short_panics_example :
    JsonRpc.match globs call_rule "eth_call" (slice (item (str "0x1") empty))
    ≡ panic index_out_of_range
match_short_panics_example =
    match_short_panics globs call_rule "eth_call" (item (str "0x1") empty) (item (str "*") empty)
      empty (str "latest") refl refl any_method refl first_param

match_total_example :
    (hit : Bool) × (JsonRpc.match globs call_rule "eth_call"
        (slice (item (str "0x1") (item (str "latest") empty)))
      ≡ ok hit)
match_total_example =
    match_total globs call_rule "eth_call" (slice (item (str "0x1") (item (str "latest") empty)))
      ((tt, (tt, tt)), omega arith)
