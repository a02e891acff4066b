-- ===== src/Lib.antt =====
-- Verification library of the Aura proxy, which forwards JSON-RPC requests for Solana and Eclipse to
-- upstream nodes. The proxy finds the adapter of the request's host, prepares the request, checks the
-- user's token, limits and balance, and hands the request to the unified transport of its chain. The
-- transport asks the method router for the balancer of the first method, lets the balancer choose a
-- target, sends the request, analyses the answer, updates the statistics of the target and either
-- returns the answer or excludes the target and tries the next one.
--
-- The parts, with the code that each file models:
-- * Balancer (internal/pkg/util/balancer/balancer.go). Rotation is RoundRobin: its counter is a field
--   and each operation returns the new record. Weighted is ProbabilisticBalancer: `get_next` takes the
--   draw of Float64() and returns the caller's slice as well, which the code sorts in place. The panic
--   on an index is the result `out_of_range`.
-- * Chains (internal/pkg/chains/solana). Methods and its children hold the method names and costs,
--   ErrorCodes the RPC codes, NodeType what each kind of node serves, Slots the slot in a message.
-- * Models (internal/pkg/models).
-- * Target (internal/proxy/chains/solana/proxy_targets.go): `update_stats` and `is_available`, with
--   the readings of the clock in nanoseconds as arguments; a missing key of availableMethods reads as
--   the zero restriction.
-- * Config (internal/pkg/configtypes): the configuration and `validate`; a nil error is `none`.
-- * Router (internal/proxy/chains/solana/method_router.go). A *ProxyTarget is an index into `heap`, so
--   that all lists that hold a target share its statistics. Router/Tables holds the table and the loop
--   `collect` over the providers, which `build_balancers` follows in processProviders.
-- * Context (internal/pkg/util/echo/custom_context.go): the fields of CustomContext, and Tariffs.
-- * Analysis (internal/proxy/chains/solana/response_analysis.go and errors.go): `decode_node_response`
--   and `rpc_error_analysis`; bodies are lists of bytes and jsonparser is a record of functions.
-- * Transport (internal/proxy/chains/solana/unified_transport.go): Transport/Answers judges what one
--   target answers, and `execute_with_retries` is the loop, with the state of the request's context,
--   the router and the partner metrics passed along. What attempt i meets from outside (the request's
--   context, the draw, the clock, the answer) is the record World. The result `none` is a panic or a
--   pointer that is not in the heap. Transport/Sending is SendRequest around the loop.
-- * Rpc (what internal/proxy/chains/solana/prepare.go reads of a request): requests, parameters and the
--   errors that a response carries. A json.Number is its text.
-- * Requests (internal/pkg/transport/request.go and response.go, IsContentTypeValid of
--   internal/pkg/util/echo/echo_helpers.go): bodies, parsing, calls and errors. Decoding of JSON and
--   the HTTP client are arguments.
-- * Adapter (internal/proxy/chains/solana/adapter.go and prepare.go): the adapter of a chain. Its
--   transport is the state; `after_request` is the adapter once a request has changed it.
-- * WebSocket (internal/proxy/chains/solana/websocket_transport.go and ws_transport.go): the target and
--   the rewritten URL, with net/url as a record of functions.
-- * Handlers (internal/proxy/handlers.go, initAdapters of internal/proxy/proxy.go): an adapter stands
--   under several hosts, so `adapters` maps a host to an index of the heap of adapters.
-- * Server (initProxyHandlers of internal/proxy/handlers.go, internal/proxy/middlewares/request_id.go):
--   the way of a POST request through the middlewares to its handler, over the state of all of them.
-- * Tokens (internal/proxy/middlewares/api_token_checker.go): users are indices of a heap, as the cache
--   and the contexts share them by pointer; go-cache is a record of functions.
-- * Limiter (internal/pkg/util/echo/limiter.go, NewRateLimiter of echo_helpers.go): the store of
--   visitors, with the token bucket as a record of functions.
-- * Collector (internal/pkg/collector/collector.go): the statistics that wait, and the batches.
-- * Slices (internal/pkg/util/util.go): Chunk and ConvertMap.
-- * Streams (internal/proxy/middlewares/stream_rate_limit.go): the connection counters, as a map, and
--   a step relation over the connections that are open; the middleware opens and closes a stream.
-- * Usage (internal/proxy/credits.go and request_counter.go): costs, and the counters as nested maps; a
--   flush takes the outcomes of its calls and returns the report with whether the API took it.
-- * Common (shared helpers): texts, with what is used of Go's strings, lists, maps, results, machine integers and the interface of float64.
--
-- Numbers: float64 is a record of operations; a proof that needs its arithmetic asks for the laws in
-- IsIeee, which the IEEE operations have on finite values and which `milli`, fixed point over the
-- natural numbers, satisfies. uint64 and byte counters wrap by `%`; the time of a jail wraps as int64.
-- The int counter of RoundRobin, lengths and indices are natural numbers; an overflow of the int64 sum
-- of ten response times is left out. A Go map is an association list, walked in the order of the
-- list where Go's order is arbitrary.
--
-- Bounds: the retry loop recurs on the rounds left, which start at maxAttempts, so it needs no fuel of
-- its own; a flush makes its ten calls by recursion on the calls left; the loop of Chunk runs on fuel,
-- of which the length of the slice is enough; all other loops recur on the lists they walk.
--
-- Not modelled: logging, metrics, the servers, the timers and the environment, which only carry data in
-- and out; locking, since each critical section is one operation; setProxyHeaders; and CORS, which is
-- a copy of the middleware of echo with small changes.
pub mod Common
pub mod Balancer
pub mod Chains
pub mod Models
pub mod Target
pub mod Config
pub mod Router
pub mod Rpc
pub mod Context
pub mod Analysis
pub mod Transport
pub mod Requests
pub mod Adapter
pub mod WebSocket
pub mod Handlers
pub mod Tokens
pub mod Limiter
pub mod Collector
pub mod Server
pub mod Slices
pub mod Streams
pub mod Usage
