-- ===== src/JsonRpc/Batch.antt =====
-- `handleHttpBatch`, `getResponsesFromUpstream`, `handleHttp` and `ServeHTTP` of jsonrpc_handler.go.
pub mod Rounds
pub mod Laws
pub mod Lock
use cosmoguard.Prelude.{
  is_some, ℕ, suc, ◌+◌, ◌&&◌, List, [], ◌∷◌, ◌++◌, map, Bool, true, false, String, Option, none,
  some, if◌then◌else◌, nat_eq, string_eq, ◌==◌, is_nil, length,
}
use cosmoguard.Go.{Result, ok, panic, ◌>>=◌, nil_dereference, Bytes}
use cosmoguard.Cache.{Found, found, failed, Error}
use cosmoguard.Rules
use cosmoguard.Rules.{RuleAction, RuleCache}
use cosmoguard.Rules.JsonRpc.{JsonRpcRule, match}
use cosmoguard.HttpUtils.Reader.{Reader, reusable_reader, read_all}
use cosmoguard.HttpUtils.Writer.{
  new_writer, write_header, respond, respond_all, write_data, write_error,
}
use cosmoguard.HttpProxy.{HttpRequest, Exchange}
use cosmoguard.JsonRpc.Msg.{JsonRpcMsg, hash, parse_json_rpc_message}
use cosmoguard.JsonRpc.Responses.{
  Ref, JsonRpcResponses, get_pending_requests, get_final, add_pending, add_response,
  add_pending_with_cache_config, deny, set, store_in_cache,
}
use cosmoguard.JsonRpc.Handler.{JsonRpcHandler, RpcDeps, handle_http_single}

-- The state of the loop over the requests, with the counters that the metrics show.
pub record Batch (State : Type 0) : Type 0 where
  pub responses : JsonRpcResponses
  pub cache : State
  pub cache_hits : ℕ
  pub cache_misses : ℕ
  pub allowed : ℕ
  pub denied : ℕ

module _ (d : RpcDeps) where
  -- The default action.
  unfoldable pub by_default : RuleAction → Ref → Batch d.cache.State → Batch d.cache.State
  by_default default req b =
      if default == Rules.allow
      then record b { responses = add_pending b.responses req; allowed = b.allowed + 1 }
      else record b { responses = deny b.responses req; denied = b.denied + 1 }

  unfoldable pub deny_one : Ref → Batch d.cache.State → Batch d.cache.State
  deny_one req b = record b { responses = deny b.responses req; denied = b.denied + 1 }

  -- To ask upstream, and to cache its response as the rule says.
  unfoldable pub miss_one : Ref → Option RuleCache → Batch d.cache.State → Batch d.cache.State
  miss_one req cache b = record b {
    responses = add_pending_with_cache_config b.responses req (hash d.codec req.msg) cache;
    cache_misses = b.cache_misses + 1;
  }

  -- After `Get`.
  got_one : Ref → Option RuleCache → Found JsonRpcMsg → Batch d.cache.State → Batch d.cache.State
  got_one req cache (found m) b = record b {
    responses = add_response b.responses req m;
    cache_hits = b.cache_hits + 1;
  }
  got_one req cache (failed err) b = miss_one req cache b

  -- After `Has`.
  asked_one :
      Ref → Option RuleCache → Bool → Option Error → Batch d.cache.State → Batch d.cache.State
  unfolding got_one
  asked_one req cache cached (some err) b = miss_one req cache b
  asked_one req cache true none b =
      let (s, res) = d.cache.get (hash d.codec req.msg) b.cache in
      got_one req cache res (record b { cache = s })
  asked_one req cache false none b = miss_one req cache b

  -- A matching rule that allows the request.
  unfoldable pub allow_one : Ref → Option RuleCache → Batch d.cache.State → Batch d.cache.State
  unfolding asked_one
  allow_one req cache b =
      let (s, cached, err) = d.cache.has (hash d.codec req.msg) b.cache in
      asked_one req cache cached err (record b { cache = s; allowed = b.allowed + 1 })

  -- The loop over the rules. A matching rule without a meaning ends it, by `break`.
  unfoldable pub walk_rules :
      List (JsonRpcRule d.globs.Glob)
      → RuleAction
      → Ref
      → Batch d.cache.State
      → Result (Batch d.cache.State)
  walk_rules [] default req b = ok (by_default default req b)
  walk_rules (rule ∷ rules) default req b = do
    hit ← match d.globs rule req.msg.method req.msg.params
    let rest = walk_rules rules default req b
    if hit
        then (if rule.action == Rules.allow
            then ok (allow_one req rule.cache b)
            else if rule.action == Rules.deny
            then ok (deny_one req b)
            else ok (by_default default req b))
        else rest

  -- One round of the loop over the requests; `req.ID` is read first.
  unfoldable pub process_one :
      List (JsonRpcRule d.globs.Glob)
      → RuleAction
      → ℕ
      → Option JsonRpcMsg
      → Batch d.cache.State
      → Result (Batch d.cache.State)
  process_one rules default addr none b = panic nil_dereference
  process_one rules default addr (some m) b =
      let req : Ref = record { addr = addr; msg = m } in
      if is_nil rules
      then ok (by_default default req (record b { cache_misses = b.cache_misses + 1 }))
      else walk_rules rules default req b

  -- The requests of a decoded batch are as many pointers; `addr` numbers them.
  unfoldable pub process_all :
      List (JsonRpcRule d.globs.Glob)
      → RuleAction
      → ℕ
      → List (Option JsonRpcMsg)
      → Batch d.cache.State
      → Result (Batch d.cache.State)
  process_all rules default addr [] b = ok b
  process_all rules default addr (m ∷ ms) b = do
    b' ← process_one rules default addr m b
    process_all rules default (suc addr) ms b'

  -- `getResponsesFromUpstream`: the reply of upstream to the requests that are left, whatever its
  -- status; a single message counts as a batch of one.
  unfoldable pub get_responses_from_upstream :
      HttpRequest → List Ref → Option (HttpRequest × Reader × List (Option JsonRpcMsg))
  get_responses_from_upstream http_request requests =
      elim (d.codec.marshal_many (map (λ r. r.msg) requests)) [
        | none ↦ none
        | some bytes ↦
            let req = record http_request { body = bytes } in
            let body = reusable_reader bytes in
            let reply = (respond_all new_writer (d.next req body)).body in
            let (single, responses, err) = parse_json_rpc_message d.codec reply in
            some (
              req,
              body,
              elim single [
                | none ↦ responses
                | some m ↦ if is_nil responses then some m ∷ [] else responses
              ],
            )
      ]

  -- The reply to the client.
  unfoldable pub write_final : JsonRpcResponses → Exchange d.cache.State → Exchange d.cache.State
  write_final l e = elim (d.codec.marshal_many (get_final l)) [
    | none ↦ record e { writer = respond e.writer (write_header 500) }
    | some bytes ↦ record e {
      writer = write_data e.writer 200 bytes ("Content-Type" ∷ "application/json" ∷ []);
    }
  ]

  -- The responses of upstream are used only if they are as many as the requests.
  unfoldable pub complete :
      JsonRpcResponses
      → List Ref
      → List (Option JsonRpcMsg)
      → Exchange d.cache.State
      → Result (Exchange d.cache.State)
  complete l pending responses e =
      if length responses == length pending
      then (do
        l' ← set pending responses l
        ok (write_final l' (record e { cache = (store_in_cache d.cache l' e.cache).0 })))
      else ok (write_final l e)

  -- What `handleHttpBatch` does after its loop.
  unfoldable pub finish :
      HttpRequest → JsonRpcResponses → Exchange d.cache.State → Result (Exchange d.cache.State)
  finish req l e =
      let pending = get_pending_requests l in
      if is_nil pending
      then ok (write_final l e)
      else elim (get_responses_from_upstream req pending) [
        | none ↦ ok (record e {
          writer = write_error e.writer 500 "error getting responses from upstream" [];
        })
        | some (sent, body, responses) ↦
            complete l pending responses (record e { forwarded = (sent, body) ∷ e.forwarded })
      ]

  abbrev pub empty_batch : d.cache.State → Batch d.cache.State
  empty_batch s = record {
    responses = [];
    cache = s;
    cache_hits = 0;
    cache_misses = 0;
    allowed = 0;
    denied = 0;
  }

  unfoldable pub handle_http_batch :
      List (JsonRpcRule d.globs.Glob)
      → RuleAction
      → List (Option JsonRpcMsg)
      → HttpRequest
      → Exchange d.cache.State
      → Result (Exchange d.cache.State)
  handle_http_batch rules default requests req e = do
    b ← process_all rules default 0 requests (empty_batch e.cache)
    finish req b.responses (record e { cache = b.cache })

  -- A body that cannot be decoded is served as far as it was; the reader is in memory and cannot fail.
  unfoldable pub handle_http :
      JsonRpcHandler d.globs.Glob → HttpRequest → d.cache.State → Result (Exchange d.cache.State)
  handle_http h req s =
      let (reader, bytes) = read_all d.room (suc (length req.body)) (reusable_reader req.body) [] in
      let e : Exchange d.cache.State = record {
        reader = reader;
        writer = new_writer;
        cache = s;
        forwarded = [];
      } in
      let (single, requests, err) = parse_json_rpc_message d.codec bytes in
      elim single [
        | some m ↦ handle_http_single d h.rules h.default_action m req e
        | none ↦ handle_http_batch h.rules h.default_action requests req e
      ]

  pub data Served : Type 0 where
    upgraded : Served
    answered : Exchange d.cache.State → Served

  -- `ServeHTTP`: calls by POST, websocket connections, and nothing else.
  unfoldable pub serve_http :
      JsonRpcHandler d.globs.Glob → HttpRequest → d.cache.State → Result Served
  serve_http h req s =
      if req.method == "POST" && req.path == "/"
      then (do e ← handle_http h req s; ok (answered e))
      else if is_some h.ws_proxy && (req.path == h.ws_path && req.method == "GET")
      then ok upgraded
      else ok (
          answered (record {
            reader = reusable_reader req.body;
            writer = write_error new_writer 400 "unexpected request" [];
            cache = s;
            forwarded = [];
          }))
