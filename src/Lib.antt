-- ===== src/Lib.antt =====
-- CosmoGuard: a firewall in front of the API endpoints of a Cosmos node.
--
-- The program reads rules from a configuration file and guards each endpoint of the node by a proxy:
-- the HTTP proxy (LCD and RPC), the JSON-RPC handler (HTTP and websocket) and the gRPC proxy. Each
-- walks its rules in order; the first rule that matches and whose action is `allow` or `deny` decides,
-- and the default action decides where none does. Replies may be cached, as the rule says. Paths
-- below are from the root of the repository.
--
-- Shared parts:
--   Prelude, Prelude/*: library names passed on, tests on numbers and texts, lists, association lists.
--   Go: run-time panics as a result type, the values of `interface{}` with their comparison, `int`,
--     `strings.EqualFold`, `strconv.Itoa` and UTF-8.
--   Glob: github.com/gobwas/glob, a parameter of the model.
--   Policy, Policy/Laws: what every proxy is measured by: the verdict of a list of rules.
-- Parts of the program:
--   Options: pkg/cosmoguard/options.go, the options of the constructors.
--   Guard, Guard/*: pkg/cosmoguard/cosmoguard.go. `New` is `new` of Guard/New over the constructors
--     `NewHttpProxy`, `NewGrpcProxy`, `NewJsonRpcHandler` and `NewJsonRpcWebSocketProxy` in Guard/Parts;
--     it returns the record `CosmoGuard`, and Guard/Shape says what stands in it. `loadConfig` is
--     `load_config`, `applyRules` is `apply_rules`, and the loop of `WatchConfigFile` is `watch`
--     (Guard/InForce, Guard/Reload). Guard/Caches and Guard/Keys are about where the caches are
--     (Util/Separator: texts that a separator joins).
--     Guard/Run, Guard/Run/*: `Run`, with `Run` and `Start` of the parts: a goroutine is the list of
--     its effects. The handlers that a proxy shares with the guard are names, so that `SetRules` on the
--     guard's handler is what the proxy serves.
--   Config, Config/*: pkg/cosmoguard/config.go. `ReadConfigFromFile` is `read_config_from_file`; its
--     block for one list of rules is `prepare`.
--   Util, Util/UniqueId: pkg/util (`Sha256`, `UniqueID`).
--   Cache, Cache/Memory, Cache/Redis, Cache/Options: the interface of pkg/cache/cache.go, its
--     implementations in memory.go and redis.go, and how they are made (options.go).
--   Rules, Rules/Http, Rules/JsonRpc, Rules/Grpc: `Compile` and `Match` of the rules of
--     pkg/cosmoguard/rules.go. Rules/Patterns, Rules/Params, Rules/Calls say what a compiled rule
--     matches; Rules/Panics when matching panics.
--   HttpUtils/Reader, HttpUtils/Writer: pkg/cosmoguard/http_utils.go, the reusable body of a request
--     and the wrapper that keeps a copy of the reply, over net/http's response writer.
--   HttpProxy, HttpProxy/Laws, HttpProxy/Caching: pkg/cosmoguard/http_proxy.go (`ServeHTTP`, `allow`,
--     `deny`, `cacheHit`, `cacheMiss`, `getRequestHash`). The state of a request is the record
--     `Exchange`: body, reply, cache, and what was sent upstream.
--   GrpcProxy: `Handle` of pkg/cosmoguard/grpc_proxy.go.
--   JsonRpc/Msg, JsonRpc/Msg/Decode, JsonRpc/Responses: pkg/cosmoguard/jsonrpc_utils.go. A
--     pointer to a request is its number in the batch beside the message.
--   JsonRpc/Handler, JsonRpc/Single, JsonRpc/Batch and its children: pkg/cosmoguard/jsonrpc_handler.go
--     (`handleHttpSingle`, `handleHttpBatch`, `getResponsesFromUpstream`, `ServeHTTP`).
--     JsonRpc/Batch/Lock is the step relation of the requests that hold `rulesMutex` and of `SetRules`.
--   Ws/Proxy, Ws/Proxy/*: pkg/cosmoguard/ws_proxy.go (`HandleConnection`, `handleRequest`). The state
--     `Session` holds the client, the broker and the cache; the proxy asks Ws/Broker, and sends by
--     Ws/Client.
--   Ws/Client: pkg/cosmoguard/ws_jsonrpc_client.go, over the socket of gorilla/websocket.
--   Ws/Broker, Ws/Broker/*: pkg/cosmoguard/ws_broker.go, over Ws/Subscriptions (ws_subscriptions.go)
--     and Ws/Pool (ws_upstream_pool.go). A client is its address. Ws/Broker/Consistent says when the
--     two agree; Joining, Leaving and Broadcast are about clients that come, go and are notified,
--     Serving and Ws/Proxy/Rounds about any request of a client.
--   Ws/Utils: pkg/cosmoguard/ws_utils.go.
--   Ws/Upstream, Ws/Upstream/*: pkg/cosmoguard/ws_upstream.go, ws_upstream_cosmos.go and
--     ws_upstream_eth.go. The state `Manager` has the point where `Run` stands and the calls that wait
--     for a response; the goroutines are the step relations `Step` for Cosmos and `EthStep` for
--     Ethereum, in any order. For Cosmos a goroutine that has left its `select` is the list
--     of the writes that it has still to do, each a step. Ws/Upstream/Wired relates calls and channels,
--     Ws/Upstream/Ids is about the ids of the messages that arrive.
--   Tests, Tests/*: sample libraries and services, and each theorem at a concrete input.
--
-- Bounds and fuel: `io.ReadAll` is a loop on fuel, one round for each read; each read takes a byte
-- at least, so one more than the length of the body is enough. `HandleConnection` is a loop on fuel,
-- one round for each message, and has no result while it goes on; for a socket that in the end
-- reports an expected closure, one more than what is left to read is enough. Numbers are printed
-- with fuel 20, since a 64-bit number has at most 20 digits. The counter of the pool wraps at 32
-- bits, and priorities are compared as 64-bit numbers with a sign. The loop of `UniqueID.ID` runs
-- over the list of the numbers drawn, and the loop of `WatchConfigFile` over the files that it
-- finds.
--
-- Not modelled: logs, the values of the metrics (a histogram is its name) and tracing of time; the
-- locks, where each call is one step with the rules that were set last, but for the goroutines of
-- Ws/Upstream and for `rulesMutex`; the deferred `Close` of `HandleConnection` after a panic, of
-- which only the fault is kept; the interleaving of `Load` and `Store` in `UniqueID.ID`, which is
-- one step; what a server does after it has started to listen, the watcher of files, and the command
-- line; the reverse proxy, the gRPC connection, the sockets, the codecs, the digests, YAML, the
-- defaults of a configuration, the parsers of addresses, sorting, and the clients of the caches,
-- which are parameters. The pool's connections are an interface, which Ws/Upstream is not an
-- instance of, since its managers answer only after other goroutines have moved. In Ws/Upstream to
-- register a call, to send its message and to wait is one step, a panic has no step, the
-- subscriptions that are resubmitted are those at the connection, and for Ethereum all that a call
-- does at its end is one step. To close a socket is taken to succeed there, and the callback for a
-- client that disconnects is always the broker's. The ids of one manager are its own, where the
-- program shares the generator among the connections of a pool.
pub mod Prelude
pub mod Go
pub mod Util
pub mod Glob
pub mod Rules
pub mod Cache
pub mod Policy
pub mod HttpUtils
pub mod HttpProxy
pub mod GrpcProxy
pub mod JsonRpc
pub mod Ws
pub mod Tests
pub mod Config
pub mod Options
pub mod Guard
