-- ===== src/Lib.antt =====
-- finops-proxy, a proxy in front of language-model APIs: the loop detectors that stop agents which
-- repeat themselves (pkg/circuitbreaker), the handler with its budgets, its costs and its metrics
-- (pkg/proxy), the prices (pkg/pricing), the queues of the live log stream (pkg/logstream) and the
-- store in memory (internal/store/memory).
--
-- The middleware lets a request in and names its caller. The handler stops a caller whose budget is
-- used up, reads the body and asks the detector, in the standard wiring a pipeline of four stages: the
-- exact hash of the request, the structure of its body, the cycles in the tools that it names, and the
-- rate of its tokens. Each stage keeps a bounded map from the agent to what it has seen of it, and the
-- first stage that blocks answers. A request that is blocked is answered and logged with the cost that
-- it would have had. Any other is forwarded, an observer counts the tokens of the response as its
-- bytes pass, and at the end of the body the handler prices the call, logs its cost, and looks at the
-- daily budget. The prices come from a registry that refreshes its table. The log stream puts each
-- event into the bounded queue of every subscriber. The store keeps the log of all requests and sums
-- up their costs for the budgets.
--
-- Files and code:
--   Prelude       names of the libraries, lists, Boolean tests, bytes, and Go's integers
--   GoMap         the built-in map and its loops: the sweep, and the eviction of the oldest entry that
--                 `evictIfNeeded` of every detector has; Admit has what an eviction before a write
--                 does to the other keys
--   Float         float64, a parameter; for the tests, the natural numbers in its place
--   Detector      pkg/circuitbreaker/detector.go, status.go: results, reasons, agents and statuses
--   HashDetector  pkg/circuitbreaker/hash_detector.go: NewHashDetector is new_hash_detector, SetLimit
--                 set_limit, Check check, Reset reset, AgentStatus agent_status, BlockedAgents
--                 blocked_agents
--   StructuralHasher  pkg/circuitbreaker/structural_hasher.go: CheckPayload is check_payload, and its
--                 part on one agent's state observe; normalizePayload is in Normalize, minHash and
--                 jaccard in Sketch
--   ToolMatcher   pkg/circuitbreaker/tool_matcher.go: CheckPayload is check_payload, its part after
--                 the decoding check_names, and its part on one agent's state observe; detectCycle is
--                 detect_cycle
--   VelocityBreaker  pkg/circuitbreaker/velocity_breaker.go: CheckVelocity is check_velocity, its part
--                 on one agent's state observe, and the method append append
--   Pipeline      pkg/circuitbreaker/pipeline.go: Check, CheckPayload and Reset
--   LogHub        pkg/logstream/hub.go: what Publish does to one subscriber is deliver, a receive from
--                 the subscription's channel receive; Hub has Subscribe, Close, Publish and Len
--   MemoryStore   internal/store/memory/memory.go and the records of pkg/proxy/store.go: the methods of
--                 Store and KeyStore, under their names
--   Pricing       pkg/pricing/calculator.go, table.go: PriceFor is price_for, Cost cost, Build build
--   Registry      pkg/pricing/registry.go, and Config of fetcher.go: refresh is refresh in the parts
--                 adopt and install, its failure refresh_failed, nextDelay next_delay, and the loop
--                 refresh_loop
--   PriceText     pkg/pricing/fetcher.go: splitFloatPrefix is split_float_prefix
--   UsageObserver pkg/proxy/cost_tracking.go: usageTrackingBody and its methods
--   Budget        pkg/proxy/budget.go: BudgetMonitor; Spend is spend, one threshold of it cross
--   Metrics       pkg/proxy/metrics.go: the counters, tokenWindow and triggerRing
--   Caller        pkg/proxy/caller.go: Authenticate and Middleware
--   Events        what the handler hands to its sinks: LogEvent of pkg/logstream/hub.go, Event of
--                 notifier.go, PayloadEvent of emitter.go, IncidentInput of store.go
--   Handler       pkg/proxy/handler.go: its wiring, its state and the budget gate; ServeHTTP is
--                 serve_http in Serve, in the parts handle, after_gate, after_read, inspect and
--                 block_request; onCost of cost_tracking.go and checkBudget of alerting.go are in
--                 Costs
--
-- How the code is modelled. A method that holds its mutex is one step: a function from the state to
-- the new state and the result, with the reading of the clock as an argument. A time is the number of
-- nanoseconds since the zero time, which is 0, and a duration is a number of nanoseconds; neither
-- saturates as time.Time.Sub does after 292 years. A field of a configuration that may be negative is
-- an integer in the constructors, which replace it, and the detector keeps a natural number; the
-- ttl of the exact detector is not replaced there and is taken as one that is not negative. The
-- token sums of the velocity breaker are int64, kept as 64-bit patterns. The order of an association
-- list is the order in which a range visits the map, and may be any. Strings are lists of bytes.
--
-- The handler works on a state of the detector, the store, the metrics, the budget monitor and the
-- list of the calls of its sinks; the detector, the ledger and the prices are records of operations,
-- which the exact detector, the store in memory and the table fill. The readings of the clock for one
-- request, or for one call that completes, are one. Money and tokens are int64, kept as 64-bit
-- patterns.
--
-- Loops. The eviction loop has the number of entries as fuel, and each round removes one
-- (GoMap/Evict). The loop of the normaliser has the length of the body as fuel, each round takes at
-- least one byte, and more fuel does not change the form (StructuralHasher/Normalize/Fuel). The loop
-- of detectCycle has the periods up to maxPeriod. All other loops are recursions on their lists. The
-- loop over the lines of an event stream has the length of what waits as fuel, and each round takes a
-- line (UsageObserver/Lines). The doubling of the backoff has the failures as rounds.
--
-- Parameters: json.Unmarshal into the structs that the code reads (any function from bytes to an
-- optional value), bytes.TrimSpace, the hashes of keys and bodies, the boundaries of a month and the
-- text of a day, the token estimator, the resolver of tenant names, strconv.ParseFloat, and the
-- operations of float64.
--
-- Not modelled: the routes, the texts of the answers, the reverse proxy and the dashboard; the
-- fetching of the catalog, the units of its prices, and the parsing of the price file; the SQLite
-- store, which runs SQL; the logs; the wrapper finops-run and the commands. The pools of buffers only
-- save allocations, and the options of the constructors are the fields of their records. A receive
-- from a subscription between the drop and the send of one Publish, and a hook of the registry that
-- returns neither a table nor an error, are left out.
pub mod Prelude
pub mod Float
pub mod GoMap
pub mod Detector
pub mod HashDetector
pub mod ToolMatcher
pub mod VelocityBreaker
pub mod StructuralHasher
pub mod PriceText
pub mod Pricing
pub mod Registry
pub mod UsageObserver
pub mod Budget
pub mod Metrics
pub mod Events
pub mod Caller
pub mod Handler
pub mod Pipeline
pub mod LogHub
pub mod MemoryStore
