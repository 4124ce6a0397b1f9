-- ===== src/Guard/Shape.antt =====
-- What a guard that `New` of cosmoguard.go returns consists of.
use Prim.Native.String
use cosmoguard.Prelude.{
  Bool, ◌≡◌, refl, sym, ap, ◌∙◌, true, false, [], ◌∷◌, String, none, some, Bool-cases, ◌⊎◌, inl,
  inr, subst, if◌then◌else◌,
}
use cosmoguard.Go.{Result, ok, >>=-eq-ok, ok-injective, Bytes}
use cosmoguard.Cache.{Found, found, failed}
use cosmoguard.HttpProxy.{HttpProxy}
use cosmoguard.JsonRpc.Handler.{JsonRpcHandler}
use cosmoguard.Config.{Config, ConfigDeps, Read, unread, read, load}
use cosmoguard.Options.{with_endpoint_handler}
use cosmoguard.Guard.{
  CosmoGuard, EndpointHandler, jsonrpc, evm_jsonrpc, evm_jsonrpc_ws, Made, unmade, made,
}
use cosmoguard.Guard.Parts.{Libraries}
use cosmoguard.Guard.New.{
  endpoint, or_return, http_part, grpc_part, rpc_handler, evm_handler, evm_ws_handler, new_evm,
  new_parts, after_load, new,
}

pub made-injective :
    {Glob : Type 0} {g h : CosmoGuard Glob} → ◌≡◌ {A = Made Glob} (made g) (made h) → g ≡ h
made-injective e = cc

or_return-made :
    {Glob A : Type 0} (what : String) (r : Result (Found A)) (next : A → Result (Made Glob))
    (g : CosmoGuard Glob)
    → or_return what r next ≡ ok (made g)
    → (a : A) × (r ≡ ok (found a)) × (next a ≡ ok (made g))
unfolding or_return
or_return-made {Glob} {A} what r next g e =
    let (part, e1, e2) = >>=-eq-ok r _ e in by_part part e1 e2
  where
    by_part :
        (part : Found A)
        → r ≡ ok part
        → ◌≡◌ {A = Result (Made Glob)}
            (elim part [
              | failed err ↦ ok (unmade (String.◌++◌ what (String.◌++◌ ": " err)))
              | found a ↦ next a
            ])
            (ok (made g))
        → (a : A) × (r ≡ ok (found a)) × (next a ≡ ok (made g))
    by_part (failed err) e1 e2 = absurd (let k = ok-injective e2 in cc)
    by_part (found a) e1 e2 = (a, e1, e2)

module _ {Glob : Type 0} (lib : Libraries) (c : Config Glob) where
  abbrev pub lcd_part : Found (HttpProxy Glob EndpointHandler)
  lcd_part = http_part lib c "lcd" c.lcd_port c.node.lcd_port []

  abbrev pub rpc_part : Found (HttpProxy Glob EndpointHandler)
  rpc_part =
      http_part lib c "rpc" c.rpc_port c.node.rpc_port (
        with_endpoint_handler (endpoint "/" "POST" ∷ endpoint "/websocket" "GET" ∷ []) jsonrpc ∷ [])

  abbrev pub evm_rpc_part : Found (HttpProxy Glob EndpointHandler)
  evm_rpc_part =
      http_part lib c "evm_rpc" c.evm_rpc_port c.node.evm_rpc_port
        (with_endpoint_handler (endpoint "/" "POST" ∷ []) evm_jsonrpc ∷ [])

  abbrev pub evm_rpc_ws_part : Found (HttpProxy Glob EndpointHandler)
  evm_rpc_ws_part =
      http_part lib c "evm_rpc_ws" c.evm_rpc_ws_port c.node.evm_rpc_ws_port
        (with_endpoint_handler (endpoint "/" "GET" ∷ []) evm_jsonrpc_ws ∷ [])

  -- The parts that every guard has are what their constructors return.
  pub record Base (g : CosmoGuard Glob) : Type 0 where
    pub cfg : g.cfg ≡ some c
    pub grpc : grpc_part lib c ≡ found g.grpc_proxy
    pub lcd : lcd_part ≡ found g.lcd_proxy
    pub handler : rpc_handler lib c ≡ ok (found g.json_rpc_handler)
    pub rpc : rpc_part ≡ found g.rpc_proxy

  pub record Evm (g : CosmoGuard Glob) : Type 0 where
    pub handler : JsonRpcHandler Glob
    pub handler_at : g.evm_json_rpc_handler ≡ some handler
    pub handler_made : evm_handler lib c ≡ ok (found handler)
    pub rpc : HttpProxy Glob EndpointHandler
    pub rpc_at : g.evm_rpc_proxy ≡ some rpc
    pub rpc_made : evm_rpc_part ≡ found rpc
    pub ws_handler : JsonRpcHandler Glob
    pub ws_handler_at : g.evm_json_rpc_ws_handler ≡ some ws_handler
    pub ws_handler_made : evm_ws_handler lib c ≡ ok (found ws_handler)
    pub ws : HttpProxy Glob EndpointHandler
    pub ws_at : g.evm_rpc_ws_proxy ≡ some ws
    pub ws_made : evm_rpc_ws_part ≡ found ws

  pub record NoEvm (g : CosmoGuard Glob) : Type 0 where
    pub handler : g.evm_json_rpc_handler ≡ none
    pub rpc : g.evm_rpc_proxy ≡ none
    pub ws_handler : g.evm_json_rpc_ws_handler ≡ none
    pub ws : g.evm_rpc_ws_proxy ≡ none

  abbrev pub ByEvm : CosmoGuard Glob → Type 0
  ByEvm g = ((c.enable_evm ≡ true) × Evm g) ⊎ ((c.enable_evm ≡ false) × NoEvm g)

  new_evm-Evm : (b g : CosmoGuard Glob) → Base b → new_evm lib c b ≡ ok (made g) → Base g × Evm g
  unfolding new_evm
  new_evm-Evm b g base e =
      let (handler, h1, n1) = or_return-made _ _ _ g e in
      let (rpc, h2, n2) = or_return-made _ _ _ g n1 in
      let (ws_handler, h3, n3) = or_return-made _ _ _ g n2 in
      let (ws, h4, n4) = or_return-made _ _ _ g n3 in
      subst (λ x. Base x × Evm x) (made-injective (ok-injective n4))
        (
          record {
            cfg = base.cfg;
            grpc = base.grpc;
            lcd = base.lcd;
            handler = base.handler;
            rpc = base.rpc;
          },
          record {
            handler = handler;
            handler_at = refl;
            handler_made = h1;
            rpc = rpc;
            rpc_at = refl;
            rpc_made = ok-injective h2;
            ws_handler = ws_handler;
            ws_handler_at = refl;
            ws_handler_made = h3;
            ws = ws;
            ws_at = refl;
            ws_made = ok-injective h4;
          },
        )

  pub new_parts-Base : (g : CosmoGuard Glob) → new_parts lib c ≡ ok (made g) → Base g × ByEvm g
  unfolding new_parts
  new_parts-Base g e =
      let (grpc, h1, n1) = or_return-made _ _ _ g e in
      let (lcd, h2, n2) = or_return-made _ _ _ g n1 in
      let (handler, h3, n3) = or_return-made _ _ _ g n2 in
      let (rpc, h4, n4) = or_return-made _ _ _ g n3 in
      let b : CosmoGuard Glob = record {
        cfg = some c;
        lcd_proxy = lcd;
        rpc_proxy = rpc;
        grpc_proxy = grpc;
        json_rpc_handler = handler;
        evm_rpc_proxy = none;
        evm_rpc_ws_proxy = none;
        evm_json_rpc_handler = none;
        evm_json_rpc_ws_handler = none;
      } in
      let base : Base b = record {
        cfg = refl;
        grpc = ok-injective h1;
        lcd = ok-injective h2;
        handler = h3;
        rpc = ok-injective h4;
      } in
      let branch : Bool → Result (Made Glob) =
        λ enable. if enable then new_evm lib c b else ok (made b) in
      elim (Bool-cases c.enable_evm) [
        | inl on ↦
            let (bg, evm) = new_evm-Evm b g base (sym (ap branch on) ∙ n4) in (bg, inl (on, evm))
        | inr off ↦
            subst (λ x. Base x × ByEvm x) (made-injective (ok-injective (sym (ap branch off) ∙ n4)))
              (base, inr (off, record { handler = refl; rpc = refl; ws_handler = refl; ws = refl }))
      ]

-- `New` returns a guard only for a file that it can load.
pub new-Base :
    (d : ConfigDeps) (lib : Libraries) (file : Found Bytes) (g : CosmoGuard d.globs.Glob)
    → new d lib file ≡ ok (made g)
    → (c : Config d.globs.Glob) × (load d file ≡ ok (read c none)) × Base lib c g × ByEvm lib c g
unfolding new after_load
new-Base d lib file g e = let (res, l, e1) = >>=-eq-ok (load d file) _ e in by_read res l e1
  where
    by_read :
        (res : Read d.globs.Glob)
        → load d file ≡ ok res
        → after_load lib res ≡ ok (made g)
        → (c : Config d.globs.Glob) × (load d file ≡ ok (read c none))
          × Base lib c g
          × ByEvm lib c g
    by_read (unread err) l h = absurd (let k = ok-injective h in cc)
    by_read (read c (some err)) l h = absurd (let k = ok-injective h in cc)
    by_read (read c none) l h = let (base, evm) = new_parts-Base lib c g h in (c, l, base, evm)
