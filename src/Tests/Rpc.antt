-- ===== src/Tests/Rpc.antt =====
-- The theorems on the JSON-RPC handler at concrete requests and batches.
use cosmoguard.Prelude.{
  ◌≢◌, ◌+◌, ℕ, ◌≡◌, refl, sym, List, [], ◌∷◌, false, String, Option, none, some, length, lookup,
  All, string_eq, inl, inr,
}
use cosmoguard.Go.{nil_dereference, ok, ◌>>=◌, nil, utf8}
use cosmoguard.Rules.{allow, deny}
use cosmoguard.Rules.JsonRpc.{JsonRpcRule, match, method_match}
use cosmoguard.Policy.{verdict}
use cosmoguard.JsonRpc.Msg.{JsonRpcMsg, unauthorized_response, hash}
use cosmoguard.JsonRpc.Responses
use cosmoguard.JsonRpc.Responses.{
  JsonRpcResponses, get_pending_requests, get_final, set, add_pending_with_cache_config,
}
use cosmoguard.JsonRpc.Responses.Laws.{fill}
use cosmoguard.JsonRpc.Handler.{handle_http_single}
use cosmoguard.JsonRpc.Single.{view_of, enforce, handle_http_single-enforce}
use cosmoguard.JsonRpc.Batch.{
  Batch, empty_batch, process_all, process_one, walk_rules, allow_one, miss_one, deny_one,
}
use cosmoguard.JsonRpc.Batch.Lock
use cosmoguard.JsonRpc.Batch.Lock.{
  RulesMutex, Panics, r_lock, panicked, here, next, set_rules-waits,
}
use cosmoguard.JsonRpc.Batch.Laws.{Entries, IsPermitted, process_all-guards, process_all-completes}
use cosmoguard.HttpUtils.Reader.{reusable_reader}
use cosmoguard.HttpUtils.Writer.{new_writer}
use cosmoguard.HttpProxy.{Exchange}
use cosmoguard.Tests.Samples.{rpc_deps, get_request, message}

abbrev rule : String → String → JsonRpcRule String
rule action method = record {
  priority = 1;
  action = action;
  methods = method ∷ [];
  params = nil;
  cache = none;
  method_globs = method ∷ [];
  params_globs = [];
  params_map = false;
  params_slice = false;
}

abbrev rules : List (JsonRpcRule String)
rules = rule allow "status" ∷ rule deny "broadcast" ∷ []

abbrev received : Exchange (List (ℕ × JsonRpcMsg))
received = record {
  reader = reusable_reader (1 ∷ []);
  writer = new_writer;
  cache = [];
  forwarded = [];
}

handle_http_single-enforce_example :
    handle_http_single rpc_deps rules deny (message "status" 7) get_request received ≡ (
      verdict (view_of rpc_deps (message "status" 7)) deny rules
      >>= enforce rpc_deps (message "status" 7) get_request received)
handle_http_single-enforce_example =
    handle_http_single-enforce rpc_deps rules deny (message "status" 7) get_request received

abbrev requests : List (Option JsonRpcMsg)
requests = some (message "status" 7) ∷ some (message "broadcast" 8) ∷ []

-- What the loop leaves: the first request is open, the second refused.
abbrev batch : Batch (List (ℕ × JsonRpcMsg))
batch = record {
  responses =
      record {
        request = record { addr = 0; msg = message "status" 7 };
        response = none;
        cache = none;
        cache_key = 6;
      }
      ∷ record {
        request = record { addr = 1; msg = message "broadcast" 8 };
        response = some (unauthorized_response (message "broadcast" 8));
        cache = none;
        cache_key = 0;
      }
      ∷ [];
  cache = [];
  cache_hits = 0;
  cache_misses = 1;
  allowed = 1;
  denied = 1;
}

processed : process_all rpc_deps rules deny 0 requests (empty_batch rpc_deps []) ≡ ok batch
unfolding process_all process_one walk_rules allow_one miss_one deny_one
    add_pending_with_cache_config Responses.deny match method_match hash utf8 lookup
processed = refl

one_pending : length (get_pending_requests batch.responses) ≡ 1
unfolding get_pending_requests
one_pending = refl

process_all-guards_example :
    Entries rpc_deps rules deny 0 requests batch.responses
    × All (IsPermitted rpc_deps rules deny) (get_pending_requests batch.responses)
    × (batch.allowed + batch.denied ≡ 2)
process_all-guards_example =
    process_all-guards rpc_deps rules deny requests [] batch (inl refl, (inr refl, tt)) processed

abbrev replies : List (Option JsonRpcMsg)
replies = some (message "" 7) ∷ []

process_all-completes_example :
    (set (get_pending_requests batch.responses) replies batch.responses
      ≡ ok (fill batch.responses replies))
    × (length (get_final (fill batch.responses replies)) ≡ 2)
process_all-completes_example =
    process_all-completes rpc_deps rules deny requests [] batch replies (inl refl, (inr refl, tt))
      processed (sym one_pending) (refl, tt)

-- A batch `[{...}, null]`, in which the handler panics after the first request.
abbrev with_null : List (Option JsonRpcMsg)
with_null = some (message "status" 7) ∷ none ∷ []

abbrev holding : RulesMutex rpc_deps
holding = record { readers = 1; inside = Lock.batch rules deny with_null [] ∷ [] }

abbrev left_locked : RulesMutex rpc_deps
left_locked = record { readers = 1; inside = [] }

loop-Panics : Panics rpc_deps (Lock.batch rules deny with_null [])
unfolding process_all process_one walk_rules match method_match
loop-Panics = (nil_dereference, refl)

set_rules-waits_example : left_locked.readers ≢ 0
set_rules-waits_example =
    set_rules-waits rpc_deps holding left_locked
      (next here (r_lock (Lock.batch rules deny with_null []))) (inl (inr (inl refl)))
      (next here (panicked [] [] (Lock.batch rules deny with_null []) refl loop-Panics))
