-- ===== src/Guard.antt =====
-- `CosmoGuard` of cosmoguard.go: the proxies of all endpoints, and the rules that `applyRules` hands
-- them, at the start and after each change of the file. Each call is one step. A file is what
-- `os.ReadFile` returns at that time.
pub mod Parts
pub mod New
pub mod Run
pub mod Shape
pub mod Caches
pub mod Keys
pub mod InForce
pub mod Reload
use Prim.Native.String
use cosmoguard.Prelude.{
  Bool, true, false, List, [], ◌∷◌, ◌++◌, String, Option, none, some, if◌then◌else◌,
}
use cosmoguard.Go.{Result, ok, panic, ◌>>=◌, nil_dereference, Bytes}
use cosmoguard.Cache.{Error, Found}
use cosmoguard.Rules.{RuleAction}
use cosmoguard.Rules.Http.{HttpRule}
use cosmoguard.Rules.JsonRpc.{JsonRpcRule}
use cosmoguard.HttpProxy
use cosmoguard.HttpProxy.{HttpProxy, Endpoint}
use cosmoguard.GrpcProxy
use cosmoguard.GrpcProxy.{GrpcProxy}
use cosmoguard.JsonRpc.Handler
use cosmoguard.JsonRpc.Handler.{JsonRpcHandler}
use cosmoguard.Ws.Proxy.{JsonRpcWebSocketProxy}
use cosmoguard.Config.{Config, ConfigDeps, Read, unread, read, load}

-- The handlers that the HTTP proxies share with the guard, by the names that `New` gives them.
pub data EndpointHandler : Type 0 where
  jsonrpc evm_jsonrpc evm_jsonrpc_ws : EndpointHandler

pub record CosmoGuard (Glob : Type 0) : Type 0 where
  pub cfg : Option (Config Glob)
  pub lcd_proxy : HttpProxy Glob EndpointHandler
  pub rpc_proxy : HttpProxy Glob EndpointHandler
  pub grpc_proxy : GrpcProxy Glob
  pub json_rpc_handler : JsonRpcHandler Glob
  pub evm_rpc_proxy : Option (HttpProxy Glob EndpointHandler)
  pub evm_rpc_ws_proxy : Option (HttpProxy Glob EndpointHandler)
  pub evm_json_rpc_handler : Option (JsonRpcHandler Glob)
  pub evm_json_rpc_ws_handler : Option (JsonRpcHandler Glob)

-- What `New` returns.
pub data Made (Glob : Type 0) : Type 0 where
  unmade : Error → Made Glob
  made : CosmoGuard Glob → Made Glob

-- `SetRules` through a pointer that may be nil.
unfoldable pub set_http :
    {Glob : Type 0}
    → Option (HttpProxy Glob EndpointHandler)
    → List (HttpRule Glob)
    → RuleAction
    → Result (Option (HttpProxy Glob EndpointHandler))
set_http none rules default = panic nil_dereference
set_http (some p) rules default = ok (some (HttpProxy.set_rules p rules default))

unfoldable pub set_json_rpc :
    {Glob : Type 0}
    → Option (JsonRpcHandler Glob)
    → List (JsonRpcRule Glob)
    → RuleAction
    → Result (Option (JsonRpcHandler Glob))
set_json_rpc none rules default = panic nil_dereference
set_json_rpc (some h) rules default = ok (some (Handler.set_rules h rules default))

-- The rules of the endpoints that every guard has.
unfoldable pub apply_base : {Glob : Type 0} → Config Glob → CosmoGuard Glob → CosmoGuard Glob
apply_base c g = record g {
  lcd_proxy = HttpProxy.set_rules g.lcd_proxy c.lcd.rules c.lcd.default;
  grpc_proxy = GrpcProxy.set_rules g.grpc_proxy c.grpc.rules c.grpc.default;
  rpc_proxy = HttpProxy.set_rules g.rpc_proxy c.rpc.rules c.rpc.default;
  json_rpc_handler =
      Handler.set_rules g.json_rpc_handler c.rpc.json_rpc.rules c.rpc.json_rpc.default;
}

unfoldable pub apply_evm :
    {Glob : Type 0} → Config Glob → CosmoGuard Glob → Result (CosmoGuard Glob)
unfolding set_http set_json_rpc
apply_evm c g = do
  rpc ← set_http g.evm_rpc_proxy c.evm.rpc.http_rules c.evm.rpc.default
  handler ← set_json_rpc g.evm_json_rpc_handler c.evm.rpc.rules c.evm.rpc.default
  ws ← set_json_rpc g.evm_json_rpc_ws_handler c.evm.ws.rules c.evm.ws.default
  ok (record g {
    evm_rpc_proxy = rpc;
    evm_json_rpc_handler = handler;
    evm_json_rpc_ws_handler = ws;
  })

apply_config : {Glob : Type 0} → Config Glob → CosmoGuard Glob → Result (CosmoGuard Glob)
unfolding apply_base apply_evm
apply_config c g = if c.enable_evm then apply_evm c (apply_base c g) else ok (apply_base c g)

unfoldable pub apply_rules : {Glob : Type 0} → CosmoGuard Glob → Result (CosmoGuard Glob)
unfolding apply_config
apply_rules g = elim g.cfg [ none ↦ panic nil_dereference | some c ↦ apply_config c g ]

-- The two values of `ReadConfigFromFile`.
abbrev pub returned : {Glob : Type 0} → Read Glob → Option (Config Glob) × Option Error
returned (unread err) = (none, some err)
returned (read cfg err) = (some cfg, err)

module _ (d : ConfigDeps) where
  unfoldable pub load_config :
      Found Bytes → CosmoGuard d.globs.Glob → Result (CosmoGuard d.globs.Glob × Option Error)
  load_config file g = do
    r ← load d file
    let (cfg, err) = returned r
    ok (record g { cfg = cfg }, err)

  -- One event of `WatchConfigFile`.
  unfoldable pub reload :
      Found Bytes → CosmoGuard d.globs.Glob → Result (CosmoGuard d.globs.Glob × Option Error)
  reload file g = do
    (g', err) ← load_config file g
    elim err [ some e ↦ ok (g', some e) | none ↦ (do g2 ← apply_rules g'; ok (g2, none)) ]

  -- The loop of `WatchConfigFile` over the files that it finds; an error ends it, and the program.
  unfoldable pub watch :
      List (Found Bytes) → CosmoGuard d.globs.Glob → Result (CosmoGuard d.globs.Glob × Option Error)
  watch [] g = ok (g, none)
  watch (file ∷ files) g = do
    (g', err) ← reload file g
    let rest = watch files g'
    elim err [ some e ↦ ok (g', some e) | none ↦ rest ]
