-- ===== src/Guard/Reload.antt =====
-- The rules in force after the start and after each change of the configuration file: cosmoguard.go.
use cosmoguard.Prelude.{
  ◌≡◌, ◌≢◌, refl, sym, ap, ◌∙◌, true, false, List, [], ◌∷◌, ◌++◌, Option, none, some, Bool-cases,
  ◌↔◌, ◌⊎◌, is_some, Option-cases, inl, inr, subst, if◌then◌else◌,
}
use cosmoguard.Go.{Bytes, Result, ok, panic, ◌>>=◌, >>=-eq-ok, ok-injective, nil_dereference}
use cosmoguard.Cache.{Error, Found}
use cosmoguard.HttpProxy.{HttpProxy}
use cosmoguard.JsonRpc.Handler.{JsonRpcHandler}
use cosmoguard.Config.{Config, ConfigDeps, Read, unread, read, load}
use cosmoguard.Guard.{
  CosmoGuard, EndpointHandler, made, apply_rules, apply_config, apply_base, apply_evm, set_http,
  set_json_rpc, load_config, reload, watch, returned,
}
use cosmoguard.Guard.Parts.{Libraries}
use cosmoguard.Guard.New.{new}
use cosmoguard.Guard.Shape.{Base, ByEvm, new-Base}
use cosmoguard.Guard.InForce.{InForce, apply_rules-InForce}

-- `applyRules` for EVM, on pointers that are all nil, or none is.
apply_evm_lem :
    {Glob : Type 0} (c : Config Glob) (g : CosmoGuard Glob)
    → is_some g.evm_json_rpc_handler ≡ is_some g.evm_rpc_proxy
    → is_some g.evm_json_rpc_ws_handler ≡ is_some g.evm_rpc_proxy
    → ((g.evm_rpc_proxy ≡ none) × (apply_evm c g ≡ panic nil_dereference))
      ⊎ ((g.evm_rpc_proxy ≢ none) × (r : CosmoGuard Glob) × (apply_evm c g ≡ ok r))
unfolding apply_evm set_http set_json_rpc
apply_evm_lem {Glob} c g same_h same_w =
    by_parts g.evm_rpc_proxy g.evm_json_rpc_handler g.evm_json_rpc_ws_handler same_h same_w
  where
    by_parts :
        (o : Option (HttpProxy Glob EndpointHandler)) (h w : Option (JsonRpcHandler Glob))
        → is_some h ≡ is_some o
        → is_some w ≡ is_some o
        → let k = record g {
          evm_rpc_proxy = o;
          evm_json_rpc_handler = h;
          evm_json_rpc_ws_handler = w;
        } in
          ((o ≡ none) × (apply_evm c k ≡ panic nil_dereference))
          ⊎ ((o ≢ none) × (r : CosmoGuard Glob) × (apply_evm c k ≡ ok r))
    by_parts none h w sh sw = inl (refl, refl)
    by_parts (some p) (some h) (some w) sh sw = inr (λ e. cc, _, refl)
    by_parts (some p) none w sh sw = absurd (cc)
    by_parts (some p) (some h) none sh sw = absurd (cc)

by_cfg :
    {Glob : Type 0} (c : Config Glob) (g : CosmoGuard Glob)
    → g.cfg ≡ some c
    → apply_rules g ≡ apply_config c g
unfolding apply_rules
by_cfg c g k = ap (λ o. elim o [ none ↦ panic nil_dereference | some x ↦ apply_config x g ]) k

pub apply_on :
    {Glob : Type 0} (c : Config Glob) (g : CosmoGuard Glob)
    → g.cfg ≡ some c
    → c.enable_evm ≡ true
    → apply_rules g ≡ apply_evm c (apply_base c g)
unfolding apply_config
apply_on c g k on =
    by_cfg c g k ∙ ap (λ b. if b then apply_evm c (apply_base c g) else ok (apply_base c g)) on

pub apply_off :
    {Glob : Type 0} (c : Config Glob) (g : CosmoGuard Glob)
    → g.cfg ≡ some c
    → c.enable_evm ≡ false
    → apply_rules g ≡ ok (apply_base c g)
unfolding apply_config
apply_off c g k off =
    by_cfg c g k ∙ ap (λ b. if b then apply_evm c (apply_base c g) else ok (apply_base c g)) off

module _ (d : ConfigDeps) where
  -- The configuration of a file that was read without an error.
  abbrev pub Loads : Found Bytes → Config d.globs.Glob → Type 0
  Loads file c = load d file ≡ ok (read c none)

  -- What a change of the file that ends without an error was.
  reloaded :
      (file : Found Bytes) (g r : CosmoGuard d.globs.Glob) (err : Option Error)
      → reload d file g ≡ ok (r, err)
      → err ≡ none
      → (c : Config d.globs.Glob) × Loads file c × InForce c g r
  unfolding reload load_config
  reloaded file g r err e fine =
      let (a, e1, e2) = >>=-eq-ok (load_config d file g) _ e in
      let (res, e3, e4) = >>=-eq-ok (load d file) _ e1 in
      by_read res e3 (subst After (sym (ok-injective e4)) e2)
    where
      After : CosmoGuard d.globs.Glob × Option Error → Type 0
      After x =
          ◌≡◌ {A = Result (CosmoGuard d.globs.Glob × Option Error)}
            (elim x.1 [
              | some e ↦ ok (x.0, some e)
              | none ↦ (do g2 ← apply_rules x.0; ok (g2, none))
            ])
            (ok (r, err))

      by_read :
          (res : Read d.globs.Glob)
          → load d file ≡ ok res
          → After (record g { cfg = (returned res).0 }, (returned res).1)
          → (c : Config d.globs.Glob) × Loads file c × InForce c g r
      by_read (unread x) l h = absurd (cc)
      by_read (read c (some x)) l h = absurd (cc)
      by_read (read c none) l h =
          let (g2, k1, k2) = >>=-eq-ok (apply_rules (record g { cfg = some c })) _ h in
          (
            c,
            l,
            subst (InForce c g) (ap (λ x. x.0) (ok-injective k2))
                (apply_rules-InForce c (record g { cfg = some c }) g2 refl k1),
          )

  -- What changes of the file that all end without an error leave: `p` before the last of them.
  abbrev pub Watched :
      List (Found Bytes) → Found Bytes → CosmoGuard d.globs.Glob → CosmoGuard d.globs.Glob → Type 0
  Watched files file g r =
      (p : CosmoGuard d.globs.Glob) × (c : Config d.globs.Glob) × (watch d files g ≡ ok (p, none))
      × Loads file c
      × InForce c p r
      × (r.evm_rpc_ws_proxy ≡ g.evm_rpc_ws_proxy)

  watch_step :
      (file : Found Bytes) (files : List (Found Bytes)) (g a : CosmoGuard d.globs.Glob)
      (err : Option Error)
      → reload d file g ≡ ok (a, err)
      → err ≡ none
      → watch d (file ∷ files) g ≡ watch d files a
  unfolding watch
  watch_step file files g a err e fine = rw (e, fine) refl

  watched :
      (files : List (Found Bytes)) (file : Found Bytes) (g r : CosmoGuard d.globs.Glob)
      (err : Option Error)
      → watch d (files ++ file ∷ []) g ≡ ok (r, err)
      → err ≡ none
      → Watched files file g r
  unfolding watch
  watched [] file g r err e fine =
      let (a, e1, e2) = >>=-eq-ok (reload d file g) _ e in
      elim (Option-cases a.1) [
        | inl h ↦
            let (c, l, f) = reloaded file g a.0 a.1 e1 h in
            let f' = subst (InForce c g) (ap (λ x. x.0) (ok-injective (rw h at e2))) f in
            (g, c, refl, l, f', f'.3)
        | inr (x, h) ↦ absurd (let k = ap (λ y. y.1) (ok-injective (rw h at e2)) ∙ fine in cc)
      ]
  watched (f ∷ files) file g r err e fine =
      let (a, e1, e2) = >>=-eq-ok (reload d f g) _ e in
      elim (Option-cases a.1) [
        | inl h ↦
            let (p, c, before, l, f', same) = watched files file a.0 r err (rw h at e2) fine in
            let (c1, l1, f1) = reloaded f g a.0 a.1 e1 h in
            (p, c, watch_step f files g a.0 a.1 e1 h ∙ before, l, f', same ∙ f1.3)
        | inr (x, h) ↦ absurd (let k = ap (λ y. y.1) (ok-injective (rw h at e2)) ∙ fine in cc)
      ]

  -- After any number of changes of the file, each loaded without an error, the LCD, RPC and gRPC
  -- proxies and the JSON-RPC handler, its websocket proxy included, have the rules and the default
  -- action of the last file. So have the RPC proxy and the two handlers for EVM if that file enables
  -- EVM; if not, they are as the files before it left them. The HTTP proxy in front of the websocket
  -- for EVM is as it was at the start.
  pub watch-InForce :
      (files : List (Found Bytes)) (file : Found Bytes) (g r : CosmoGuard d.globs.Glob)
      → watch d (files ++ file ∷ []) g ≡ ok (r, none)
      → Watched files file g r
  watch-InForce files file g r e = watched files file g r none e refl

  starts :
      (lib : Libraries) (c : Config d.globs.Glob) (g : CosmoGuard d.globs.Glob)
      → Base lib c g
      → ByEvm lib c g
      → (r : CosmoGuard d.globs.Glob) × (apply_rules g ≡ ok r)
  unfolding apply_base
  starts lib c g base (inr (off, evm)) = (apply_base c g, apply_off c g base.cfg off)
  starts lib c g base (inl (on, evm)) =
      elim (apply_evm_lem c (apply_base c g) (rw (evm.handler_at, evm.rpc_at) refl)
        (rw (evm.ws_handler_at, evm.rpc_at) refl)) [
          | inl (n, e) ↦ absurd (let k = sym n ∙ evm.rpc_at in cc)
          | inr (some_p, r, e) ↦ (r, apply_on c g base.cfg on ∙ e)
        ]

  -- A guard that `New` returns can always be started: `applyRules` does not panic on it, and then the
  -- LCD, RPC and gRPC proxies and the JSON-RPC handler have the rules and the default action of the
  -- file, and if it enables EVM, so have the RPC proxy and the two handlers for EVM. If not, these stay
  -- as `New` made them, and so does in any case the HTTP proxy in front of the websocket for EVM.
  pub new-apply_rules :
      (lib : Libraries) (file : Found Bytes) (g : CosmoGuard d.globs.Glob)
      → new d lib file ≡ ok (made g)
      → (r : CosmoGuard d.globs.Glob) × (c : Config d.globs.Glob) × (apply_rules g ≡ ok r)
        × (load d file ≡ ok (read c none))
        × InForce c g r
  new-apply_rules lib file g e =
      let (c, l, base, evm) = new-Base d lib file g e in
      let (r, runs) = starts lib c g base evm in
      (r, c, runs, l, apply_rules-InForce c g r base.cfg runs)

  -- The end of a change of the file that could be loaded.
  abbrev run : Result (CosmoGuard d.globs.Glob) → Result (CosmoGuard d.globs.Glob × Option Error)
  run m = m >>= λ g. ok (g, none)

  loaded_lem :
      (file : Found Bytes) (g : CosmoGuard d.globs.Glob) (c : Config d.globs.Glob)
      → load d file ≡ ok (read c none)
      → reload d file g ≡ run (apply_rules (record g { cfg = some c }))
  unfolding reload load_config
  loaded_lem file g c l = rw (l, reload, load_config) refl

  -- A guard whose pointers for EVM are all nil, or none is, panics on a change of the file exactly
  -- when the new configuration enables EVM and the pointers are nil: when EVM was not enabled at the
  -- start. The file is one that can be loaded.
  pub reload-panics_iff :
      (file : Found Bytes) (g : CosmoGuard d.globs.Glob) (c : Config d.globs.Glob)
      → load d file ≡ ok (read c none)
      → is_some g.evm_json_rpc_handler ≡ is_some g.evm_rpc_proxy
      → is_some g.evm_json_rpc_ws_handler ≡ is_some g.evm_rpc_proxy
      → (reload d file g ≡ panic nil_dereference)
        ↔ ((c.enable_evm ≡ true) × (g.evm_rpc_proxy ≡ none))
  unfolding apply_base
  reload-panics_iff file g c l h w = elim (Bool-cases c.enable_evm) [
    | inr off ↦
        let e = loaded_lem file g c l ∙ ap run (apply_off c (record g { cfg = some c }) refl off) in
        (λ k. absurd (let q = sym e ∙ k in cc), λ k. absurd (let q = sym off ∙ k.0 in cc))
    | inl on ↦
        let e = loaded_lem file g c l ∙ ap run (apply_on c (record g { cfg = some c }) refl on) in
        elim (apply_evm_lem c (apply_base c (record g { cfg = some c })) h w) [
          | inl (n, p) ↦ (λ _. (on, n), λ _. e ∙ ap run p)
          | inr (some_p, r, p) ↦
              (λ k. absurd (let q = sym (e ∙ ap run p) ∙ k in cc), λ k. absurd (some_p k.1))
        ]
  ]
