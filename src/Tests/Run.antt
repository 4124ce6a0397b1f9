-- ===== src/Tests/Run.antt =====
-- The theorems on `Run` of cosmoguard.go at the guard of Tests/Guard.
use cosmoguard.Prelude.{[], ◌∷◌}
use cosmoguard.Cache.{found}
use cosmoguard.Guard.Run.Distinct.{Running, new-Running}
use cosmoguard.Tests.Config.{config_deps}
use cosmoguard.Tests.Guard.{libraries, evm, evm_made}

new-Running_example : Running evm
new-Running_example = new-Running config_deps libraries (found (1 ∷ [])) evm evm_made
