-- ===== src/Guard/InForce.antt =====
-- When a guard goes by a configuration, and what `applyRules` of cosmoguard.go leaves.
use cosmoguard.Prelude.{
  ◌≡◌, refl, sym, true, false, List, Option, none, some, Bool-cases, ◌⊎◌, inl, inr, subst,
}
use cosmoguard.Go.{ok, >>=-eq-ok, ok-injective}
use cosmoguard.Rules.{RuleAction}
use cosmoguard.Rules.Http.{HttpRule}
use cosmoguard.Rules.JsonRpc.{JsonRpcRule}
use cosmoguard.HttpProxy.{HttpProxy}
use cosmoguard.HttpProxy
use cosmoguard.GrpcProxy
use cosmoguard.JsonRpc.Handler.{JsonRpcHandler}
use cosmoguard.JsonRpc.Handler
use cosmoguard.Ws.Proxy.{JsonRpcWebSocketProxy}
use cosmoguard.Ws.Proxy
use cosmoguard.Config.{Config}
use cosmoguard.Guard.{
  CosmoGuard, EndpointHandler, apply_rules, apply_config, apply_base, apply_evm, set_http,
  set_json_rpc,
}

module _ {Glob : Type 0} where
  -- An HTTP proxy has these rules and this default action.
  abbrev pub HttpHas : HttpProxy Glob EndpointHandler → List (HttpRule Glob) → RuleAction → Type 0
  HttpHas p rules default = (p.rules ≡ rules) × (p.default_action ≡ default)

  abbrev pub WsHas :
      Option (JsonRpcWebSocketProxy Glob) → List (JsonRpcRule Glob) → RuleAction → Type 0
  WsHas none rules default = Unit
  WsHas (some p) rules default = (p.rules ≡ rules) × (p.default_action ≡ default)

  -- A JSON-RPC handler has these rules and this default action, and so has its websocket proxy.
  abbrev pub RpcHas : JsonRpcHandler Glob → List (JsonRpcRule Glob) → RuleAction → Type 0
  RpcHas h rules default =
      (h.rules ≡ rules) × (h.default_action ≡ default) × WsHas h.ws_proxy rules default

  abbrev pub InBase : Config Glob → CosmoGuard Glob → Type 0
  InBase c g =
      HttpHas g.lcd_proxy c.lcd.rules c.lcd.default
      × HttpHas g.rpc_proxy c.rpc.rules c.rpc.default
      × ((g.grpc_proxy.rules ≡ c.grpc.rules) × (g.grpc_proxy.default_action ≡ c.grpc.default))
      × RpcHas g.json_rpc_handler c.rpc.json_rpc.rules c.rpc.json_rpc.default

  abbrev pub InEvm : Config Glob → CosmoGuard Glob → Type 0
  InEvm c g =
      ((p : HttpProxy Glob EndpointHandler) × (g.evm_rpc_proxy ≡ some p)
        × HttpHas p c.evm.rpc.http_rules c.evm.rpc.default)
      × ((h : JsonRpcHandler Glob) × (g.evm_json_rpc_handler ≡ some h)
          × RpcHas h c.evm.rpc.rules c.evm.rpc.default)
      × ((h : JsonRpcHandler Glob) × (g.evm_json_rpc_ws_handler ≡ some h)
          × RpcHas h c.evm.ws.rules c.evm.ws.default)

  -- The parts for EVM that have rules are the same in both guards.
  abbrev pub SameEvm : CosmoGuard Glob → CosmoGuard Glob → Type 0
  SameEvm p g =
      (g.evm_rpc_proxy ≡ p.evm_rpc_proxy)
      × (g.evm_json_rpc_handler ≡ p.evm_json_rpc_handler)
      × (g.evm_json_rpc_ws_handler ≡ p.evm_json_rpc_ws_handler)

  -- The guard `g`, which was `p`, goes by this configuration: each endpoint has its rules and its
  -- default action, but those for EVM only if it enables EVM, or else they are what they were in `p`.
  -- The HTTP proxy in front of the websocket for EVM is what it was.
  abbrev pub InForce : Config Glob → CosmoGuard Glob → CosmoGuard Glob → Type 0
  InForce c p g =
      (g.cfg ≡ some c)
      × InBase c g
      × (((c.enable_evm ≡ false) × SameEvm p g) ⊎ ((c.enable_evm ≡ true) × InEvm c g))
      × (g.evm_rpc_ws_proxy ≡ p.evm_rpc_ws_proxy)

  rpc_lem :
      (h : JsonRpcHandler Glob) (rules : List (JsonRpcRule Glob)) (default : RuleAction)
      → RpcHas (Handler.set_rules h rules default) rules default
  unfolding Handler.set_rules Proxy.set_rules
  rpc_lem h rules default = (refl, refl, by_proxy h.ws_proxy)
    where
      by_proxy :
          (o : Option (JsonRpcWebSocketProxy Glob))
          → WsHas
              (elim o [ none ↦ none | some p ↦ some (Proxy.set_rules p rules default) ])
              rules
              default
      by_proxy none = tt
      by_proxy (some p) = (refl, refl)

  set_http_lem :
      (o q : Option (HttpProxy Glob EndpointHandler)) (rules : List (HttpRule Glob))
      (default : RuleAction)
      → set_http o rules default ≡ ok q
      → (p : HttpProxy Glob EndpointHandler) × (q ≡ some p) × HttpHas p rules default
  unfolding set_http HttpProxy.set_rules
  set_http_lem none q rules default e = absurd (cc)
  set_http_lem (some p) q rules default e =
      (HttpProxy.set_rules p rules default, sym (ok-injective e), (refl, refl))

  set_json_rpc_lem :
      (o q : Option (JsonRpcHandler Glob)) (rules : List (JsonRpcRule Glob)) (default : RuleAction)
      → set_json_rpc o rules default ≡ ok q
      → (h : JsonRpcHandler Glob) × (q ≡ some h) × RpcHas h rules default
  unfolding set_json_rpc
  set_json_rpc_lem none q rules default e = absurd (cc)
  set_json_rpc_lem (some h) q rules default e =
      (Handler.set_rules h rules default, sym (ok-injective e), rpc_lem h rules default)

  base_lem : (c : Config Glob) (g : CosmoGuard Glob) → InBase c (apply_base c g)
  unfolding apply_base HttpProxy.set_rules GrpcProxy.set_rules
  base_lem c g = ((refl, refl), (refl, refl), (refl, refl), rpc_lem _ _ _)

  evm_lem :
      (c : Config Glob) (g r : CosmoGuard Glob)
      → c.enable_evm ≡ true
      → g.cfg ≡ some c
      → InBase c g
      → apply_evm c g ≡ ok r
      → InForce c g r
  unfolding apply_evm
  evm_lem c g r on k b e =
      let (rpc, e1, f1) =
        >>=-eq-ok (set_http g.evm_rpc_proxy c.evm.rpc.http_rules c.evm.rpc.default) _ e in
      let (h, e2, f2) =
        >>=-eq-ok (set_json_rpc g.evm_json_rpc_handler c.evm.rpc.rules c.evm.rpc.default) _ f1 in
      let (ws, e3, f3) =
        >>=-eq-ok (set_json_rpc g.evm_json_rpc_ws_handler c.evm.ws.rules c.evm.ws.default) _ f2 in
      subst (InForce c g) (ok-injective f3) (
        k,
        b,
        inr (
          on,
          (
            set_http_lem g.evm_rpc_proxy rpc _ _ e1,
            set_json_rpc_lem g.evm_json_rpc_handler h _ _ e2,
            set_json_rpc_lem g.evm_json_rpc_ws_handler ws _ _ e3,
          ),
        ),
        refl,
      )

  pub apply_rules-InForce :
      (c : Config Glob) (g r : CosmoGuard Glob)
      → g.cfg ≡ some c
      → apply_rules g ≡ ok r
      → InForce c g r
  unfolding apply_rules apply_config apply_base
  apply_rules-InForce c g r k e = elim (Bool-cases c.enable_evm) [
    | inl on ↦ evm_lem c (apply_base c g) r on k (base_lem c g) (rw (k, apply_rules, on) at e)
    | inr off ↦
        subst (InForce c g) (ok-injective (rw (k, apply_rules, off) at e))
          (k, base_lem c g, inl (off, (refl, refl, refl)), refl)
  ]
