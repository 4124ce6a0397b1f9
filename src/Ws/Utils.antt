-- ===== src/Ws/Utils.antt =====
-- pkg/cosmoguard/ws_utils.go: the requests that open and close subscriptions.
use cosmoguard.Prelude.{Bool, ◌||◌, String, Option, none, some, string_eq, ◌==◌}
use text.Mathlib.Text.{starts_with}
use cosmoguard.Go.{Result, ok, ◌>>=◌, Value, slice, dict, get, index, as_string}
use cosmoguard.JsonRpc.Msg.{JsonRpcMsg}
use cosmoguard.Ws.{Attempt, got, failed}

unfoldable pub has_subscription_method : JsonRpcMsg → Bool
has_subscription_method request =
    request.method == "subscribe"
    || (request.method == "unsubscribe"
        || (request.method == "unsubscribe_all"
            || (request.method == "eth_subscribe" || request.method == "eth_unsubscribe")))

-- `params["query"].(string)`.
query_of : Value → Option String
query_of (dict m) = elim (get "query" m) [ none ↦ none | some v ↦ as_string v ]
query_of _ = none

-- `params[0].(string)`, which panics on an empty array.
first_of : Value → Result (Attempt String)
first_of (slice vs) = do
  v ← index vs 0
  ok (elim (as_string v) [
    | none ↦ failed "bad query format (should be string)"
    | some query ↦ got query
  ])
first_of _ = ok (failed "bad params for subscribe")

unfoldable pub get_subscription_param : JsonRpcMsg → Result (Attempt String)
unfolding query_of first_of
get_subscription_param req = elim (query_of req.params) [
  | some query ↦ ok (got query)
  | none ↦ first_of req.params
]

unfoldable pub is_eth_subscription_id : String → Bool
is_eth_subscription_id params = starts_with params "0x"
