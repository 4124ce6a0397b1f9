-- ===== src/Tests.antt =====
-- The theorems at concrete inputs, with the samples that they share.
pub mod Samples
pub mod Rules
pub mod Http
pub mod Rpc
pub mod Ws
pub mod Sorting
pub mod Broker
pub mod Proxy
pub mod Config
pub mod Guard
pub mod Run
pub mod Upstream
pub mod Eth
pub mod Ending
pub mod Rounds
pub mod Ids
