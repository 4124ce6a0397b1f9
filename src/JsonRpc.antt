-- ===== src/JsonRpc.antt =====
-- pkg/cosmoguard/jsonrpc_utils.go and jsonrpc_handler.go: the JSON-RPC messages, the collection of
-- the responses of a batch, and the handler of single and batch requests over HTTP.
pub mod Msg
pub mod Responses
pub mod Handler
pub mod Single
pub mod Batch
