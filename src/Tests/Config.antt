-- ===== src/Tests/Config.antt =====
-- The theorems on the configuration at concrete files: an empty file enables no EVM.
use cosmoguard.Prelude.{
  ℕ, ◌≡◌, refl, [], ◌∷◌, map, true, false, String, none, some, nat_eq, List, if◌then◌else◌, is_nil,
}
use cosmoguard.Go.{Bytes, ok, int_lt}
use cosmoguard.Glob.{compile_all, must_compile}
use cosmoguard.Cache.{found}
use cosmoguard.Rules.{allow, deny}
use cosmoguard.Rules.Http
use cosmoguard.Rules.Http.{HttpRule}
use cosmoguard.Config.{
  Config, ConfigDeps, CacheGlobalConfig, prepare_http, prepare_grpc, prepare_json_rpc, prepare_all,
  prepare, by_priority, compile_each, read, finish, load, read_config_from_file,
}
use cosmoguard.Config.Lists.{Prioritised, prepare_all-Prioritised}
use cosmoguard.Config.Unset.{UnsetFirst, with_default, read_config_from_file-UnsetFirst}
use cosmoguard.Tests.Samples.{globs}
use cosmoguard.Tests.Sorting.{insertion, put, insertion-Sorts}

abbrev rule : ℕ → String → List String → HttpRule String
rule priority action path_globs = record {
  priority = priority;
  action = action;
  paths = "/status" ∷ [];
  methods = [];
  cache = none;
  path_globs = path_globs;
}

-- A configuration with two LCD rules, the second of which may have no priority.
abbrev config : List (HttpRule String) → Config String
config rules = record {
  host = "0.0.0.0";
  rpc_port = 1;
  lcd_port = 2;
  grpc_port = 3;
  enable_evm = false;
  evm_rpc_port = 4;
  evm_rpc_ws_port = 5;
  node = record {
    host = "node";
    rpc_port = 1;
    lcd_port = 2;
    grpc_port = 3;
    evm_rpc_port = 4;
    evm_rpc_ws_port = 5;
  };
  cache = record { ttl = 5; redis = none; redis_sentinel = none; key = "" };
  lcd = record { default = deny; rules = rules };
  rpc = record {
    default = deny;
    rules = [];
    json_rpc = record { default = deny; rules = [] };
    web_socket_enabled = true;
    web_socket_connections = 10;
  };
  grpc = record { default = deny; rules = [] };
  evm = record {
    rpc = record { default = deny; rules = []; http_rules = [] };
    ws = record { default = deny; rules = []; web_socket_connections = 10 };
  };
  metrics = record { enable = true; port = 9001 };
}

abbrev parsed : Config String
parsed = config (rule 5 deny [] ∷ rule 0 allow [] ∷ [])

-- The cache on a Redis server.
abbrev pub redis : CacheGlobalConfig
redis = record { ttl = 60; redis = some "redis://cache"; redis_sentinel = none; key = "guard_" }

abbrev pub config_deps : ConfigDeps
config_deps = record {
  globs = globs;
  read_file = λ path. found [];
  unmarshal =
      λ b. (if is_nil b then parsed else record parsed { enable_evm = true; cache = redis }, none);
  sort = insertion;
  set_defaults =
      λ c. (record c { lcd = record (c.lcd) { rules = map with_default c.lcd.rules } }, none);
}

abbrev prepared : Config String
prepared = config (rule 0 allow ("/status" ∷ []) ∷ rule 5 deny ("/status" ∷ []) ∷ [])

parsed_prepares : prepare_all config_deps parsed ≡ ok prepared
unfolding prepare_all prepare_http prepare_grpc prepare_json_rpc prepare by_priority compile_each
    insertion put Http.compile compile_all must_compile int_lt
parsed_prepares = refl

prepare_all-Prioritised_example :
    Prioritised (λ r. r.priority) prepared.lcd.rules
    × Prioritised (λ r. r.priority) prepared.grpc.rules
    × Prioritised (λ r. r.priority) prepared.rpc.rules
    × Prioritised (λ r. r.priority) prepared.rpc.json_rpc.rules
    × Prioritised (λ r. r.priority) prepared.evm.rpc.rules
    × Prioritised (λ r. r.priority) prepared.evm.rpc.http_rules
    × Prioritised (λ r. r.priority) prepared.evm.ws.rules
prepare_all-Prioritised_example =
    prepare_all-Prioritised config_deps insertion-Sorts parsed prepared parsed_prepares

abbrev pub filled : Config String
filled = config (rule 1000 allow ("/status" ∷ []) ∷ rule 5 deny ("/status" ∷ []) ∷ [])

file_reads : read_config_from_file config_deps "cosmoguard.yml" ≡ ok (read filled none)
unfolding read_config_from_file load finish prepare_all prepare_http prepare_grpc prepare_json_rpc
    prepare by_priority compile_each insertion put Http.compile compile_all must_compile int_lt
file_reads = refl

read_config_from_file-UnsetFirst_example :
    (f : Bytes) × (config_deps.read_file "cosmoguard.yml" ≡ found f)
    × (c : Config String) × (rs : List (HttpRule String)) × (config_deps.unmarshal f ≡ (c, none))
    × (prepare_http config_deps c.lcd.rules ≡ ok rs)
    × (filled.lcd.rules ≡ map with_default rs)
    × UnsetFirst rs
read_config_from_file-UnsetFirst_example =
    read_config_from_file-UnsetFirst config_deps insertion-Sorts (λ c. refl) "cosmoguard.yml" filled
      none file_reads

pub file_loads : load config_deps (found []) ≡ ok (read filled none)
unfolding load finish prepare_all prepare_http prepare_grpc prepare_json_rpc prepare by_priority
    compile_each insertion put Http.compile compile_all must_compile int_lt
file_loads = refl

-- The next file enables EVM, and keeps caches on a Redis server.
abbrev pub filled_evm : Config String
filled_evm = record filled { enable_evm = true; cache = redis }

pub evm_loads : load config_deps (found (1 ∷ [])) ≡ ok (read filled_evm none)
unfolding load finish prepare_all prepare_http prepare_grpc prepare_json_rpc prepare by_priority
    compile_each insertion put Http.compile compile_all must_compile int_lt
evm_loads = refl
