-- ===== src/JsonRpc/Responses.antt =====
-- `JsonRpcResponses` of jsonrpc_utils.go: the requests of a batch with the responses so far. A
-- request is a pointer: its address beside the message, so that `Find` compares addresses.
pub mod Laws
use cosmoguard.Prelude.{
  ℕ, ◌&&◌, ◌||◌, not, List, [], ◌∷◌, ◌++◌, Bool, true, false, Option, none, some, if◌then◌else◌,
  nat_eq, ◌==◌, is_some,
}
use cosmoguard.Go.{Result, ok, panic, ◌>>=◌, index_out_of_range, Value, nil}
use cosmoguard.Cache.{Cache, Error}
use cosmoguard.Rules.{RuleCache}
use cosmoguard.JsonRpc.Msg.{JsonRpcMsg, clone_with_id, unauthorized_response}

pub record Ref : Type 0 where
  pub addr : ℕ
  pub msg : JsonRpcMsg

pub record JsonRpcResponse : Type 0 where
  pub request : Ref
  pub response : Option JsonRpcMsg
  pub cache : Option RuleCache
  pub cache_key : ℕ

abbrev pub JsonRpcResponses : Type 0
JsonRpcResponses = List JsonRpcResponse

unfoldable pub get_pending_requests : JsonRpcResponses → List Ref
get_pending_requests [] = []
get_pending_requests (r ∷ l) =
    let rest = get_pending_requests l in if is_some r.response then rest else r.request ∷ rest

unfoldable pub get_final : JsonRpcResponses → List JsonRpcMsg
get_final [] = []
get_final (r ∷ l) = let rest = get_final l in elim r.response [ none ↦ rest | some m ↦ m ∷ rest ]

unfoldable pub add_pending : JsonRpcResponses → Ref → JsonRpcResponses
add_pending l request =
    l ++ record { request = request; response = none; cache = none; cache_key = 0 } ∷ []

unfoldable pub add_response : JsonRpcResponses → Ref → JsonRpcMsg → JsonRpcResponses
add_response l request response =
    l
    ++ record {
      request = request;
      response = some (clone_with_id response request.msg.id);
      cache = none;
      cache_key = 0;
    }
      ∷ []

unfoldable pub add_pending_with_cache_config :
    JsonRpcResponses → Ref → ℕ → Option RuleCache → JsonRpcResponses
add_pending_with_cache_config l request key cfg =
    l ++ record { request = request; response = none; cache = cfg; cache_key = key } ∷ []

unfoldable pub deny : JsonRpcResponses → Ref → JsonRpcResponses
deny l request =
    l
    ++ record {
      request = request;
      response = some (unauthorized_response request.msg);
      cache = none;
      cache_key = 0;
    }
      ∷ []

-- `res := l.Find(r); if res != nil { res.Response = response }`: the first entry for the pointer.
unfoldable pub set_found : ℕ → Option JsonRpcMsg → JsonRpcResponses → JsonRpcResponses
set_found addr response [] = []
set_found addr response (r ∷ l) =
    if r.request.addr == addr
    then record r { response = response } ∷ l
    else r ∷ set_found addr response l

-- `l.Find(r) != nil`.
has_request : ℕ → JsonRpcResponses → Bool
has_request addr [] = false
has_request addr (r ∷ l) = r.request.addr == addr || has_request addr l

-- `Set`: the responses are given to the requests in order; to find an entry is to need a response.
unfoldable pub set :
    List Ref → List (Option JsonRpcMsg) → JsonRpcResponses → Result JsonRpcResponses
unfolding has_request set_found
set [] responses l = ok l
set (r ∷ rs) [] l =
    let rest = set rs [] l in if has_request r.addr l then panic index_out_of_range else rest
set (r ∷ rs) (m ∷ ms) l = set rs ms (set_found r.addr m l)

-- What `StoreInCache` keeps: the settings enable it, and errors and empty results only on demand.
abbrev pub is_nil_value : Value → Bool
is_nil_value nil = true
is_nil_value _ = false

unfoldable pub is_storable : RuleCache → JsonRpcMsg → Bool
is_storable c m =
    not (is_some m.error && not c.cache_error)
    && not (is_nil_value m.result && not c.cache_empty_result)

module _ (cache : Cache ℕ JsonRpcMsg) where
  store_one : Option JsonRpcMsg → Option RuleCache → ℕ → cache.State → cache.State × Option Error
  store_one (some m) (some c) key s =
      if c.enable && is_storable c m then cache.set key m c.ttl s else (s, none)
  store_one _ _ key s = (s, none)

  -- The first error of the cache ends the loop.
  unfoldable pub store_in_cache : JsonRpcResponses → cache.State → cache.State × Option Error
  unfolding store_one
  store_in_cache [] s = (s, none)
  store_in_cache (r ∷ l) s =
      let (s', err) = store_one r.response r.cache r.cache_key s in
      let rest = store_in_cache l s' in elim err [ none ↦ rest | some e ↦ (s', some e) ]
