-- ===== src/Guard/Run/Names.antt =====
-- The metrics that the parts of a guard register when they start, by their names.
use Prim.Native.String
use cosmoguard.Prelude.{
  ◌≡◌, refl, ap, ◌∙◌, Bool, true, false, not, ◌&&◌, any, List, [], ◌∷◌, ◌++◌, map, String, Option,
  none, some, is_some, string_eq, ◌==◌,
}
use mathlib.Core.List.{append-nil}
use cosmoguard.Cache.Options.{Backing}
use cosmoguard.Go.{ok, ◌>>=◌}
use cosmoguard.HttpProxy.{HttpProxy, Endpoint}
use cosmoguard.JsonRpc.Handler.{JsonRpcHandler}
use cosmoguard.Ws.Proxy.{JsonRpcWebSocketProxy}
use cosmoguard.Ws.Upstream.{Unconnected}
use cosmoguard.Guard.{CosmoGuard, EndpointHandler}
use cosmoguard.Guard.Parts.Laws.{timed, WsMade}
use cosmoguard.Guard.Run.{
  Effect, register, listen, connect, must_register, start_pool, start_broker, run_ws, run_optional,
  start_handler, start_all, run_http,
}

-- The names of the metrics that a goroutine registers, and all of them.
abbrev pub names : List Effect → List String
names [] = []
names (register n ∷ es) = n ∷ names es
names (listen a ∷ es) = names es
names (connect u ∷ es) = names es

abbrev pub registered : List (List Effect) → List String
registered [] = []
registered (e ∷ es) = names e ++ registered es

-- No name comes twice: prometheus panics on a second metric of one name.
abbrev pub distinct : List String → Bool
distinct [] = true
distinct (n ∷ ns) = not (any (λ k. k == n) ns) && distinct ns

pub names-append : (xs ys : List Effect) → names (xs ++ ys) ≡ names xs ++ names ys
names-append [] ys = refl
names-append (register n ∷ xs) ys = ap (λ l. n ∷ l) (names-append xs ys)
names-append (listen a ∷ xs) ys = names-append xs ys
names-append (connect u ∷ xs) ys = names-append xs ys

names-connect : (us : List Unconnected) → names (map connect us) ≡ []
names-connect [] = refl
names-connect (u ∷ us) = names-connect us

-- The names of a part with metrics on or off.
abbrev pub http_names : Bool → String → List String
http_names true name = name ∷ []
http_names false name = []

abbrev pub ws_names : Bool → Bool → String → List String
ws_names metrics true name = http_names metrics (String.◌++◌ "websocket_" name)
ws_names metrics false name = []

abbrev pub handler_names : Bool → Bool → String → List String
handler_names metrics ws name =
    http_names metrics name
    ++ (http_names metrics (String.◌++◌ name "_batch") ++ ws_names metrics ws name)

must_register-names :
    (o : Option String) (metrics : Bool) (name : String)
    → o ≡ timed metrics name
    → names (must_register o) ≡ http_names metrics name
must_register-names o true name e = rw e refl
must_register-names o false name e = rw e refl

module _ {Glob : Type 0} where
  run_ws-names :
      (p : JsonRpcWebSocketProxy Glob) (metrics : Bool) (name : String)
      → p.response_time_hist ≡ timed metrics name
      → names (run_ws p) ≡ http_names metrics name
  unfolding run_ws start_broker start_pool
  run_ws-names p metrics name e =
      names-append (must_register p.response_time_hist) _
      ∙ rw
          (
            must_register-names p.response_time_hist metrics name e,
            names-connect p.broker.pool.conn,
          )
          (append-nil (http_names metrics name))

  run_optional-names :
      (o : Option (JsonRpcWebSocketProxy Glob)) (metrics : Bool) (name : String) (cache : Backing)
      → WsMade name metrics cache o
      → names (run_optional o) ≡ ws_names metrics (is_some o) name
  run_optional-names none metrics name cache w = refl
  run_optional-names (some p) metrics name cache w =
      run_ws-names p metrics (String.◌++◌ "websocket_" name) w.1

  pub start_handler-names :
      (h : JsonRpcHandler Glob) (metrics : Bool) (name : String) (cache : Backing)
      → h.response_time_hist ≡ timed metrics name
      → h.batch_res_time_hist ≡ timed metrics (String.◌++◌ name "_batch")
      → WsMade name metrics cache h.ws_proxy
      → names (start_handler h) ≡ handler_names metrics (is_some h.ws_proxy) name
  unfolding start_handler
  start_handler-names h metrics name cache e1 e2 w =
      names-append (must_register h.response_time_hist) _
      ∙ rw
          (
            must_register-names h.response_time_hist metrics name e1,
            names-append (must_register h.batch_res_time_hist) (run_optional h.ws_proxy),
            must_register-names h.batch_res_time_hist metrics (String.◌++◌ name "_batch") e2,
            run_optional-names h.ws_proxy metrics name cache w,
          )
          refl

  -- An HTTP proxy, by what its handlers do when they start.
  pub run_http-names :
      (g : CosmoGuard Glob) (p : HttpProxy Glob EndpointHandler) (metrics : Bool) (name : String)
      (hs : List (List Endpoint × EndpointHandler)) (es : List Effect)
      → p.response_time_hist ≡ timed metrics name
      → p.endpoint_handlers ≡ hs
      → start_all g hs ≡ ok es
      → (r : List Effect) × (run_http g p ≡ ok r) × (names r ≡ http_names metrics name ++ names es)
  unfolding run_http
  run_http-names g p metrics name hs es e1 e2 e3 = (
    must_register p.response_time_hist ++ (es ++ listen p.addr ∷ []),
    ap
          (λ l. start_all g l >>= λ s.
            ok (must_register p.response_time_hist ++ (s ++ listen p.addr ∷ [])))
          e2
        ∙ ap (λ m. m >>= λ s. ok (must_register p.response_time_hist ++ (s ++ listen p.addr ∷ [])))
            e3,
    names-append (must_register p.response_time_hist) _
        ∙ rw
            (
              must_register-names p.response_time_hist metrics name e1,
              names-append es (listen p.addr ∷ []),
              append-nil (names es),
            )
            refl,
  )
