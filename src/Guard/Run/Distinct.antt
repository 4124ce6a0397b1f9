-- ===== src/Guard/Run/Distinct.antt =====
-- `Run` of cosmoguard.go on a guard that `New` returns: every goroutine starts.
use cosmoguard.Prelude.{◌≡◌, ap, ◌∙◌, true, List, none, some, inl, inr}
use cosmoguard.Go.{ok, panic, ◌>>=◌, Bytes, nil_dereference}
use cosmoguard.Cache.{Found}
use cosmoguard.Config.{Config, ConfigDeps}
use cosmoguard.Guard.{CosmoGuard, made, apply_rules, apply_base}
use cosmoguard.Guard.Parts.{Libraries}
use cosmoguard.Guard.New.{new}
use cosmoguard.Guard.Shape.{Base, Evm, ByEvm, new-Base}
use cosmoguard.Guard.Reload.{apply_on, apply_off}
use cosmoguard.Guard.Run.{Effect, run_parts, run}
use cosmoguard.Guard.Run.Names.{registered, distinct}
use cosmoguard.Guard.Run.Named.{
  NamedBase, Base-NamedBase, with_evm, apply_evm-with_evm, Evm-NamedEvm,
}
use cosmoguard.Guard.Run.Laws.{Starts, run_parts-off, run_parts-on}

-- The goroutines of a guard that runs.
pub record Running {Glob : Type 0} (g : CosmoGuard Glob) : Type 0 where
  pub guard : CosmoGuard Glob
  pub started : List (List Effect)
  pub runs : run g ≡ ok (guard, started)
  pub named_apart : distinct (registered started) ≡ true

module _ {Glob : Type 0} (lib : Libraries) (c : Config Glob) where
  runs_lem :
      (g g' : CosmoGuard Glob) → apply_rules g ≡ ok g' → g'.cfg ≡ some c → Starts c g' → Running g
  unfolding run
  runs_lem g g' applied k (started, e, apart) = record {
    guard = g';
    started = started;
    runs =
        ap
          (λ m. m >>= λ x. elim x.cfg [
            | none ↦ panic nil_dereference
            | some c ↦ (run_parts c x >>= λ s. ok (x, s))
          ])
          applied
        ∙ ap
            (λ o. elim o [
              | none ↦ panic nil_dereference
              | some c ↦ (run_parts c g' >>= λ s. ok (g', s))
            ])
            k
        ∙ ap (λ m. m >>= λ s. ok (g', s)) e;
    named_apart = apart;
  }

  Evm-apply_base : (g : CosmoGuard Glob) → Evm lib c g → Evm lib c (apply_base c g)
  unfolding apply_base
  Evm-apply_base g evm = record {
    handler = evm.handler;
    handler_at = evm.handler_at;
    handler_made = evm.handler_made;
    rpc = evm.rpc;
    rpc_at = evm.rpc_at;
    rpc_made = evm.rpc_made;
    ws_handler = evm.ws_handler;
    ws_handler_at = evm.ws_handler_at;
    ws_handler_made = evm.ws_handler_made;
    ws = evm.ws;
    ws_at = evm.ws_at;
    ws_made = evm.ws_made;
  }

  apply_base-cfg : (g : CosmoGuard Glob) → g.cfg ≡ some c → (apply_base c g).cfg ≡ some c
  unfolding apply_base
  apply_base-cfg g k = k

  NamedBase-with_evm :
      (b : CosmoGuard Glob) (evm : Evm lib c b) → NamedBase c b → NamedBase c (with_evm lib c b evm)
  NamedBase-with_evm b evm n = record { lcd = n.lcd; rpc = n.rpc; handler = n.handler }

  by_evm : (g : CosmoGuard Glob) → Base lib c g → ByEvm lib c g → Running g
  by_evm g base (inr (off, evm)) =
      runs_lem g (apply_base c g) (apply_off c g base.cfg off) (apply_base-cfg g base.cfg)
        (run_parts-off c (apply_base c g) off (Base-NamedBase lib c g base))
  by_evm g base (inl (on, evm)) =
      let b = apply_base c g in
      let e = Evm-apply_base g evm in
      runs_lem g (with_evm lib c b e) (apply_on c g base.cfg on ∙ apply_evm-with_evm lib c b e)
        (apply_base-cfg g base.cfg)
        (run_parts-on c (with_evm lib c b e) on
          (NamedBase-with_evm b e (Base-NamedBase lib c g base)) (Evm-NamedEvm lib c b e))

-- A guard that `New` returns can run: `Run` applies the rules and starts every handler and every
-- goroutine without a panic, and the histograms that they register with prometheus, which panics on a
-- name that it has, all have different names, whatever the configuration enables.
pub new-Running :
    (d : ConfigDeps) (lib : Libraries) (file : Found Bytes) (g : CosmoGuard d.globs.Glob)
    → new d lib file ≡ ok (made g)
    → Running g
new-Running d lib file g e =
    let (c, l, base, evm) = new-Base d lib file g e in by_evm lib c g base evm
