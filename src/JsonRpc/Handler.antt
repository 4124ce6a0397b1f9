-- ===== src/JsonRpc/Handler.antt =====
-- `JsonRpcHandler` of jsonrpc_handler.go. Locks, logs and metrics are left out.
use cosmoguard.Prelude.{
  ℕ, List, [], ◌∷◌, String, Option, none, some, if◌then◌else◌, nat_eq, string_eq, ◌==◌,
}
use cosmoguard.Go.{Result, ok, panic, ◌>>=◌, nil_dereference}
use cosmoguard.Glob.{Globs}
use cosmoguard.Cache.{Cache, found, failed}
use cosmoguard.Cache.Options.{Backing}
use cosmoguard.Rules
use cosmoguard.Rules.{RuleAction, RuleCache}
use cosmoguard.Rules.JsonRpc.{JsonRpcRule, match}
use cosmoguard.HttpUtils.Reader.{Reader}
use cosmoguard.HttpUtils.Writer.{
  Call, set_header, write_header, write, respond, respond_all, Wrapper, wrap, forward_all,
}
use cosmoguard.HttpProxy.{HttpRequest, Exchange}
use cosmoguard.JsonRpc.Msg.{
  JsonRpcMsg, clone_with_id, Codec, hash, parse_json_rpc_message, unauthorized_response,
}
use cosmoguard.JsonRpc.Responses.{is_storable}
use cosmoguard.Ws.Proxy
use cosmoguard.Ws.Proxy.{JsonRpcWebSocketProxy}

-- Websocket connections are handed over to `ws_proxy`, if there is one. A histogram is the namespace
-- of its metric.
pub record JsonRpcHandler (Glob : Type 0) : Type 0 where
  pub default_action : RuleAction
  pub ws_proxy : Option (JsonRpcWebSocketProxy Glob)
  pub ws_path : String
  pub rules : List (JsonRpcRule Glob)
  pub cache : Backing
  pub response_time_hist : Option String
  pub batch_res_time_hist : Option String

unfoldable pub set_rules :
    {Glob : Type 0}
    → JsonRpcHandler Glob
    → List (JsonRpcRule Glob)
    → RuleAction
    → JsonRpcHandler Glob
set_rules h rules default = record h {
  rules = rules;
  default_action = default;
  ws_proxy = elim h.ws_proxy [ none ↦ none | some p ↦ some (Proxy.set_rules p rules default) ];
}

-- `next` is the reverse proxy of the HTTP proxy that the handler belongs to.
pub record RpcDeps : Type 1 where
  pub globs : Globs
  pub cache : Cache ℕ JsonRpcMsg
  pub codec : Codec
  pub room : ℕ → ℕ
  pub next : HttpRequest → Reader → List Call

module _ (d : RpcDeps) where
  abbrev State : Type 0
  State = d.cache.State

  unfoldable pub write_single_response :
      JsonRpcMsg → Exchange d.cache.State → Exchange d.cache.State
  write_single_response res e = elim (d.codec.marshal_one res) [
    | none ↦ record e { writer = respond e.writer (write_header 500) }
    | some b ↦ record e {
      writer = respond_all e.writer (set_header "Content-Type" "application/json" ∷ write b ∷ []);
    }
  ]

  -- `next(w, r)`, through a wrapper that keeps the reply.
  unfoldable pub call_next : HttpRequest → Exchange d.cache.State → Exchange d.cache.State × Wrapper
  call_next req e =
      let ww = forward_all (wrap e.writer) (d.next req e.reader) in
      (record e { writer = ww.inner; forwarded = (req, e.reader) ∷ e.forwarded }, ww)

  -- `next(w, r)` straight on.
  unfoldable pub pass : HttpRequest → Exchange d.cache.State → Exchange d.cache.State
  pass req e = record e {
    writer = respond_all e.writer (d.next req e.reader);
    forwarded = (req, e.reader) ∷ e.forwarded;
  }

  -- A reply that is a batch has no message: its fields are read through a nil pointer.
  keep_reply :
      Option JsonRpcMsg → ℕ → RuleCache → Exchange d.cache.State → Result (Exchange d.cache.State)
  keep_reply none key cache e = panic nil_dereference
  keep_reply (some res) key cache e = ok (
      if is_storable cache res
      then record e { cache = (d.cache.set key res cache.ttl e.cache).0 }
      else e)

  unfoldable pub get_single_upstream_response :
      HttpRequest → ℕ → RuleCache → Exchange d.cache.State → Result (Exchange d.cache.State)
  unfolding call_next keep_reply
  get_single_upstream_response req key cache e =
      let (e', ww) = call_next req e in
      keep_reply (parse_json_rpc_message d.codec ww.buf).0 key cache e'

  -- A matching rule that allows the request.
  unfoldable pub allow_single :
      HttpRequest
      → JsonRpcMsg
      → Option RuleCache
      → Exchange d.cache.State
      → Result (Exchange d.cache.State)
  allow_single req request none e = ok (pass req e)
  allow_single req request (some cache) e =
      let key = hash d.codec request in
      let (s, cached, err) = d.cache.has key e.cache in
      let e1 = record e { cache = s } in
      if cached
      then (let (s', res) = d.cache.get key s in
          let e2 = record e { cache = s' } in
          elim res [
            | found m ↦ ok (write_single_response (clone_with_id m request.id) e2)
            | failed err' ↦ get_single_upstream_response req key cache e2
          ])
      else get_single_upstream_response req key cache e1

  unfoldable pub refuse_single : JsonRpcMsg → Exchange d.cache.State → Exchange d.cache.State
  refuse_single request e = write_single_response (unauthorized_response request) e

  -- `handleHttpSingle`: the loop over the rules, and the default action.
  unfoldable pub handle_http_single :
      List (JsonRpcRule d.globs.Glob)
      → RuleAction
      → JsonRpcMsg
      → HttpRequest
      → Exchange d.cache.State
      → Result (Exchange d.cache.State)
  handle_http_single [] default request req e =
      if default == Rules.allow then ok (pass req e) else ok (refuse_single request e)
  handle_http_single (rule ∷ rules) default request req e = do
    hit ← match d.globs rule request.method request.params
    let rest = handle_http_single rules default request req e
    if hit
        then (if rule.action == Rules.allow
            then allow_single req request rule.cache e
            else if rule.action == Rules.deny
            then ok (refuse_single request e)
            else rest)
        else rest
