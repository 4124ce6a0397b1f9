-- ===== src/Config.antt =====
-- pkg/cosmoguard/config.go: the configuration, and how it is read: rules are put in the order of
-- their priorities and compiled, and defaults are filled in. A nil slice is the empty list.
pub mod Priority
pub mod Lists
pub mod Unset
use Prim.Native.String
use cosmoguard.Prelude.{ℕ, Bool, List, [], ◌∷◌, String, Option, none, some, is_nil, if◌then◌else◌}
use cosmoguard.Go.{Result, ok, ◌>>=◌, Bytes, int_lt}
use cosmoguard.Glob.{Globs}
use cosmoguard.Cache.{Error, Found, found, failed}
use cosmoguard.Rules.{RuleAction}
use cosmoguard.Rules.Http
use cosmoguard.Rules.Http.{HttpRule}
use cosmoguard.Rules.Grpc
use cosmoguard.Rules.Grpc.{GrpcRule}
use cosmoguard.Rules.JsonRpc
use cosmoguard.Rules.JsonRpc.{JsonRpcRule}

pub record NodeConfig : Type 0 where
  pub host : String
  pub rpc_port : ℕ
  pub lcd_port : ℕ
  pub grpc_port : ℕ
  pub evm_rpc_port : ℕ
  pub evm_rpc_ws_port : ℕ

pub record RedisSentinelConfig : Type 0 where
  pub master_name : String
  pub sentinel_addrs : List String

pub record CacheGlobalConfig : Type 0 where
  pub ttl : ℕ
  pub redis : Option String
  pub redis_sentinel : Option RedisSentinelConfig
  pub key : String

pub record MetricsConfig : Type 0 where
  pub enable : Bool
  pub port : ℕ

pub record LcdConfig (Glob : Type 0) : Type 0 where
  pub default : RuleAction
  pub rules : List (HttpRule Glob)

pub record GrpcConfig (Glob : Type 0) : Type 0 where
  pub default : RuleAction
  pub rules : List (GrpcRule Glob)

pub record JsonRpcConfig (Glob : Type 0) : Type 0 where
  pub default : RuleAction
  pub rules : List (JsonRpcRule Glob)

pub record RpcConfig (Glob : Type 0) : Type 0 where
  pub default : RuleAction
  pub rules : List (HttpRule Glob)
  pub json_rpc : JsonRpcConfig Glob
  pub web_socket_enabled : Bool
  pub web_socket_connections : ℕ

pub record EvmRpcConfig (Glob : Type 0) : Type 0 where
  pub default : RuleAction
  pub rules : List (JsonRpcRule Glob)
  pub http_rules : List (HttpRule Glob)

pub record EvmRpcWsConfig (Glob : Type 0) : Type 0 where
  pub default : RuleAction
  pub rules : List (JsonRpcRule Glob)
  pub web_socket_connections : ℕ

pub record EvmConfig (Glob : Type 0) : Type 0 where
  pub rpc : EvmRpcConfig Glob
  pub ws : EvmRpcWsConfig Glob

pub record Config (Glob : Type 0) : Type 0 where
  pub host : String
  pub rpc_port : ℕ
  pub lcd_port : ℕ
  pub grpc_port : ℕ
  pub enable_evm : Bool
  pub evm_rpc_port : ℕ
  pub evm_rpc_ws_port : ℕ
  pub node : NodeConfig
  pub cache : CacheGlobalConfig
  pub lcd : LcdConfig Glob
  pub rpc : RpcConfig Glob
  pub grpc : GrpcConfig Glob
  pub evm : EvmConfig Glob
  pub metrics : MetricsConfig

-- The file system, gopkg.in/yaml.v3, `sort.Slice` of the standard library, and
-- github.com/creasty/defaults, which fills the fields that are zero by their tags.
pub record ConfigDeps : Type 1 where
  pub globs : Globs
  pub read_file : String → Found Bytes
  pub unmarshal : Bytes → Config globs.Glob × Option Error
  pub sort : (R : Type 0) → (R → R → Bool) → List R → List R
  pub set_defaults : Config globs.Glob → Config globs.Glob × Option Error

-- `for _, rule := range rules { rule.Compile() }`.
unfoldable pub compile_each : {R : Type 0} → (R → Result R) → List R → Result (List R)
compile_each compile [] = ok []
compile_each compile (r ∷ rs) = do r' ← compile r; rs' ← compile_each compile rs; ok (r' ∷ rs')

-- What `ReadConfigFromFile` returns.
pub data Read (Glob : Type 0) : Type 0 where
  unread : Error → Read Glob
  read : Config Glob → Option Error → Read Glob

module _ (d : ConfigDeps) where
  -- `sort.Slice` by the priorities, unless there are no rules.
  unfoldable pub by_priority : {R : Type 0} → (R → ℕ) → List R → List R
  by_priority {R} priority rules =
      if is_nil rules then rules else d.sort R (λ a b. int_lt (priority a) (priority b)) rules

  -- One block of `ReadConfigFromFile`, for one list of rules.
  unfoldable pub prepare : {R : Type 0} → (R → ℕ) → (R → Result R) → List R → Result (List R)
  prepare priority compile rules = compile_each compile (by_priority priority rules)

  unfoldable pub prepare_http : List (HttpRule d.globs.Glob) → Result (List (HttpRule d.globs.Glob))
  prepare_http = prepare (λ r. r.priority) (Http.compile d.globs)

  unfoldable pub prepare_grpc : List (GrpcRule d.globs.Glob) → Result (List (GrpcRule d.globs.Glob))
  prepare_grpc = prepare (λ r. r.priority) (Grpc.compile d.globs)

  unfoldable pub prepare_json_rpc :
      List (JsonRpcRule d.globs.Glob) → Result (List (JsonRpcRule d.globs.Glob))
  prepare_json_rpc = prepare (λ r. r.priority) (JsonRpc.compile d.globs)

  -- All the lists, in the order of the source.
  unfoldable pub prepare_all : Config d.globs.Glob → Result (Config d.globs.Glob)
  prepare_all c = do
    lcd ← prepare_http c.lcd.rules
    grpc ← prepare_grpc c.grpc.rules
    rpc ← prepare_http c.rpc.rules
    json_rpc ← prepare_json_rpc c.rpc.json_rpc.rules
    evm ← prepare_json_rpc c.evm.rpc.rules
    evm_http ← prepare_http c.evm.rpc.http_rules
    evm_ws ← prepare_json_rpc c.evm.ws.rules
    ok (record c {
      lcd = record (c.lcd) { rules = lcd };
      grpc = record (c.grpc) { rules = grpc };
      rpc = record (c.rpc) { rules = rpc; json_rpc = record (c.rpc.json_rpc) { rules = json_rpc } };
      evm = record {
        rpc = record (c.evm.rpc) { rules = evm; http_rules = evm_http };
        ws = record (c.evm.ws) { rules = evm_ws };
      };
    })

  -- What follows the decoding of the file.
  unfoldable pub finish : Config d.globs.Glob → Option Error → Result (Read d.globs.Glob)
  finish cfg (some err) = ok (unread (String.◌++◌ "error in config file unmarshal: " err))
  finish cfg none = do
    cfg' ← prepare_all cfg
    let (filled, err) = d.set_defaults cfg'
    ok (read filled err)

  unfoldable pub load : Found Bytes → Result (Read d.globs.Glob)
  unfolding finish
  load (failed err) = ok (unread (String.◌++◌ "error reading config file: " err))
  load (found f) = let (cfg, err) = d.unmarshal f in finish cfg err

  unfoldable pub read_config_from_file : String → Result (Read d.globs.Glob)
  unfolding load finish
  read_config_from_file path = load (d.read_file path)
