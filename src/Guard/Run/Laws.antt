-- ===== src/Guard/Run/Laws.antt =====
-- `Run` of cosmoguard.go on a guard that `New` returns.
use cosmoguard.Prelude.{
  ◌≡◌, refl, sym, ap, ◌∙◌, Bool, true, false, List, [], ◌∷◌, ◌++◌, String, is_some, if◌then◌else◌,
  string_eq, nat_eq,
}
use mathlib.Core.List.{append-nil, append_assoc}
use cosmoguard.Go.{Result, ok, ◌>>=◌}
use cosmoguard.HttpProxy.{HttpProxy, Endpoint}
use cosmoguard.JsonRpc.Handler.{JsonRpcHandler}
use cosmoguard.Config.{Config}
use cosmoguard.Guard.{CosmoGuard, EndpointHandler, jsonrpc, evm_jsonrpc, evm_jsonrpc_ws}
use cosmoguard.Guard.New.{address}
use cosmoguard.Guard.Run.{
  Effect, listen, start_handler, start_named, start_all, run_http, run_optional_http, run_grpc,
  run_parts,
}
use cosmoguard.Guard.Run.Names.{
  names, registered, distinct, http_names, handler_names, start_handler-names, run_http-names,
}
use cosmoguard.Guard.Run.Named.{NamedHttp, NamedHandler, NamedBase, NamedEvm}

-- What an HTTP proxy with a handler registers, by whether the handler has a websocket proxy.
abbrev part_names : Bool → Bool → String → String → List String
part_names metrics ws name handler = http_names metrics name ++ handler_names metrics ws handler

registered-append :
    (xs ys : List (List Effect)) → registered (xs ++ ys) ≡ registered xs ++ registered ys
registered-append [] ys = refl
registered-append (x ∷ xs) ys =
    ap (λ l. names x ++ l) (registered-append xs ys)
    ∙ sym (append_assoc (names x) (registered xs) (registered ys))

base-distinct :
    (metrics ws : Bool)
    → distinct (part_names metrics ws "rpc" "jsonrpc" ++ (http_names metrics "lcd" ++ [])) ≡ true
base-distinct false false = refl
base-distinct false true = refl
base-distinct true false = refl
base-distinct true true = refl

evm-distinct :
    (metrics w1 w2 w3 : Bool)
    → distinct (
        (part_names metrics w1 "rpc" "jsonrpc" ++ (http_names metrics "lcd" ++ []))
        ++ (part_names metrics w2 "evm_rpc" "evm_jsonrpc"
            ++ (part_names metrics w3 "evm_rpc_ws" "evm_jsonrpc_ws" ++ [])))
      ≡ true
evm-distinct false false false false = refl
evm-distinct false false false true = refl
evm-distinct false false true false = refl
evm-distinct false false true true = refl
evm-distinct false true false false = refl
evm-distinct false true false true = refl
evm-distinct false true true false = refl
evm-distinct false true true true = refl
evm-distinct true false false false = refl
evm-distinct true false false true = refl
evm-distinct true false true false = refl
evm-distinct true false true true = refl
evm-distinct true true false false = refl
evm-distinct true true false true = refl
evm-distinct true true true false = refl
evm-distinct true true true true = refl

metrics_lem :
    (b : Bool) (addr : String) (es : List (List Effect))
    → registered ((if b then (listen addr ∷ []) ∷ [] else []) ++ es) ≡ registered es
metrics_lem true addr es = refl
metrics_lem false addr es = refl

-- The server for the metrics, which registers nothing.
abbrev metrics_server : Bool → String → List (List Effect)
metrics_server enable addr = if enable then (listen addr ∷ []) ∷ [] else []

joined :
    {a b c : List String} (x y z : List String)
    → x ≡ a
    → y ≡ b
    → z ≡ c
    → x ++ (y ++ (z ++ [])) ≡ a ++ (b ++ (c ++ []))
joined x y z e1 e2 e3 = rw (e1, e2, e3) refl

-- The four parts of `Run` that can panic, one after the other.
four_parts :
    (rpc lcd evm ws : List Effect) (r1 r2 r3 r4 : Result (List Effect)) (b : Bool)
    (base : List Effect → List Effect → List (List Effect))
    → r1 ≡ ok rpc
    → r2 ≡ ok lcd
    → r3 ≡ ok evm
    → r4 ≡ ok ws
    → b ≡ true
    → (r1 >>= λ x. r2 >>= λ y.
        if b then (r3 >>= λ z. r4 >>= λ w. ok (base x y ++ (z ∷ w ∷ []))) else ok (base x y))
      ≡ ok (base rpc lcd ++ (evm ∷ ws ∷ []))
four_parts rpc lcd evm ws r1 r2 r3 r4 b base e1 e2 e3 e4 on = rw (e1, e2, e3, e4, on) refl

two_parts :
    (rpc lcd : List Effect) (r1 r2 : Result (List Effect)) (b : Bool)
    (base : List Effect → List Effect → List (List Effect))
    (f : List (List Effect) → Result (List (List Effect)))
    → r1 ≡ ok rpc
    → r2 ≡ ok lcd
    → b ≡ false
    → (r1 >>= λ x. r2 >>= λ y. if b then f (base x y) else ok (base x y)) ≡ ok (base rpc lcd)
two_parts rpc lcd r1 r2 b base f e1 e2 off = rw (e1, e2, off) refl

module _ {Glob : Type 0} where
  -- A proxy with one handler.
  run_http-handler :
      (g : CosmoGuard Glob) (p : HttpProxy Glob EndpointHandler) (h : JsonRpcHandler Glob)
      (metrics : Bool) (name handler : String) (es : List Endpoint) (e : EndpointHandler)
      → NamedHttp metrics name ((es, e) ∷ []) p
      → start_named g e ≡ ok (start_handler h)
      → NamedHandler metrics handler h
      → (r : List Effect) × (run_http g p ≡ ok r)
        × (names r ≡ part_names metrics (is_some h.ws_proxy) name handler)
  unfolding start_all
  run_http-handler g p h metrics name handler es e n starts k =
      let (r, runs, same) =
        run_http-names g p metrics name ((es, e) ∷ []) (start_handler h ++ []) n.hist n.handlers
          (rw (starts, start_all) refl) in
      (
        r,
        runs,
        same
            ∙ ap (λ l. http_names metrics name ++ l)
                (ap names (append-nil (start_handler h))
                  ∙ start_handler-names h metrics handler h.cache k.hist k.batch_hist k.ws),
      )

  -- The goroutines start without a panic, and register no name twice.
  abbrev pub Starts : Config Glob → CosmoGuard Glob → Type 0
  Starts c g =
      (started : List (List Effect)) × (run_parts c g ≡ ok started)
      × (distinct (registered started) ≡ true)

  -- The goroutines that every guard has.
  base_lem :
      (c : Config Glob) (g : CosmoGuard Glob)
      → NamedBase c g
      → (rpc lcd : List Effect) × (run_http g g.rpc_proxy ≡ ok rpc)
        × (run_http g g.lcd_proxy ≡ ok lcd)
        × (registered (
              metrics_server c.metrics.enable (address c.host c.metrics.port)
              ++ (rpc ∷ run_grpc g.grpc_proxy ∷ lcd ∷ []))
            ≡ part_names c.metrics.enable (is_some g.json_rpc_handler.ws_proxy) "rpc" "jsonrpc"
              ++ (http_names c.metrics.enable "lcd" ++ []))
  unfolding run_grpc start_named start_all
  base_lem c g n =
      let m = c.metrics.enable in
      let (rpc, e1, n1) =
        run_http-handler g g.rpc_proxy g.json_rpc_handler m "rpc" "jsonrpc" _ jsonrpc n.rpc refl
          n.handler in
      let (lcd, e2, n2) =
        run_http-names g g.lcd_proxy m "lcd" [] [] n.lcd.hist n.lcd.handlers refl in
      (
        rpc,
        lcd,
        e1,
        e2,
        metrics_lem m (address c.host c.metrics.port) (rpc ∷ run_grpc g.grpc_proxy ∷ lcd ∷ [])
            ∙ rw (n1, n2)
                (ap (λ l. part_names m (is_some g.json_rpc_handler.ws_proxy) "rpc" "jsonrpc" ++ l)
                  (append-nil (http_names m "lcd" ++ []))),
      )

  pub run_parts-off :
      (c : Config Glob) (g : CosmoGuard Glob) → c.enable_evm ≡ false → NamedBase c g → Starts c g
  unfolding run_parts
  run_parts-off c g off n =
      let (rpc, lcd, e1, e2, same) = base_lem c g n in
      (
        metrics_server c.metrics.enable (address c.host c.metrics.port)
            ++ (rpc ∷ run_grpc g.grpc_proxy ∷ lcd ∷ []),
        two_parts rpc lcd _ _ c.enable_evm
            (λ x y.
              metrics_server c.metrics.enable (address c.host c.metrics.port)
              ++ (x ∷ run_grpc g.grpc_proxy ∷ y ∷ []))
            (λ base. run_optional_http g g.evm_rpc_proxy >>= λ z.
              run_optional_http g g.evm_rpc_ws_proxy >>= λ w. ok (base ++ (z ∷ w ∷ [])))
            e1 e2 off,
        ap distinct same ∙ base-distinct c.metrics.enable (is_some g.json_rpc_handler.ws_proxy),
      )

  pub run_parts-on :
      (c : Config Glob) (g : CosmoGuard Glob)
      → c.enable_evm ≡ true
      → NamedBase c g
      → NamedEvm c g
      → Starts c g
  unfolding run_parts run_optional_http start_named
  run_parts-on c g on n v =
      let m = c.metrics.enable in
      let (rpc, lcd, e1, e2, same) = base_lem c g n in
      let (evm, e3, n3) =
        run_http-handler g v.rpc v.handler m "evm_rpc" "evm_jsonrpc" _ evm_jsonrpc v.rpc_named
          (rw (v.handler_at, start_named) refl) v.handler_named in
      let (ws, e4, n4) =
        run_http-handler g v.ws v.ws_handler m "evm_rpc_ws" "evm_jsonrpc_ws" _ evm_jsonrpc_ws
          v.ws_named (rw (v.ws_handler_at, start_named) refl) v.ws_handler_named in
      let base =
        metrics_server m (address c.host c.metrics.port)
        ++ (rpc ∷ run_grpc g.grpc_proxy ∷ lcd ∷ []) in
      (
        base ++ (evm ∷ ws ∷ []),
        four_parts rpc lcd evm ws _ _ _ _ c.enable_evm
            (λ x y.
              metrics_server m (address c.host c.metrics.port)
              ++ (x ∷ run_grpc g.grpc_proxy ∷ y ∷ []))
            e1 e2 (ap (run_optional_http g) v.rpc_at ∙ e3) (ap (run_optional_http g) v.ws_at ∙ e4)
            on,
        ap distinct (
              registered-append base (evm ∷ ws ∷ [])
              ∙ joined (registered base) (names evm) (names ws) same n3 n4)
            ∙ evm-distinct m (is_some g.json_rpc_handler.ws_proxy) (is_some v.handler.ws_proxy)
                (is_some v.ws_handler.ws_proxy),
      )
