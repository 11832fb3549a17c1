-- ===== src/Lib.antt =====
-- A verification library of upstreamer, a reverse proxy and load balancer.
--
-- The program is one state that several tasks share: requests (src/server.rs) are matched
-- against a table of routes (src/route.rs), held against rate limits
-- (src/middleware/ratelimit.rs), given an origin by the route's balancer (src/balance) and
-- recorded in that origin's state; a checker probes the origins (src/health/checker.rs), a
-- watcher replaces the configuration (src/config/reload.rs), a watcher of a cluster adds origins
-- (src/health/discovery.rs), and a timer drops idle buckets (src/bin/upstreamer/main.rs).
--
-- Which module models what, with the source's names in its spelling of types, operations and
-- fields:
--   Common      the libraries' names, tests, lists and tables; a `DashMap` or a `HashMap` is an
--               association list with at most one entry for a key (Common.Table)
--   Text        the operations of `str` that the code uses; Text.Numbers reads numbers
--   External    what the code takes from elsewhere, as parameters with named laws: URLs, and
--               `f64`; External.Fixed is an instance of them, by fixed-point numbers
--   Config      src/config/parser.rs: the types, the defaults and `validate`; Config.Rules says
--               what it accepts and Config.Faults what its errors mean
--   Balance     src/balance/mod.rs: the state of an origin; Balance.Latency, Balance.Health;
--               Balance.History is what a state recounts; Balance.Atomics is its updates as
--               atomic operations of several threads; Balance.RoundRobin and Balance.Weighted are
--               the balancers, with the share of the draws that a weight gets in
--               Balance.Weighted.Share
--   Route       src/route.rs; Route.Glob, Route.Matching, Route.Build, Route.Selection
--   RateLimit   src/middleware/ratelimit.rs; RateLimit.Bucket, Bound, Limiter, Eviction
--   Errors      src/middleware/errors.rs
--   State       src/state.rs; State.Cover, State.Known, State.Limiters
--   Health      src/health/checker.rs, its task in Health.Checker, its server in Health.Endpoint,
--               and src/health/discovery.rs in Health.Discovery, with its task in
--               Health.Discovery.Watcher
--   Metrics     src/middleware/metrics.rs; Metrics.Fields, Metrics.Counts
--   Cli         src/bin/upstreamer/cli.rs
--   Reload      `load` of src/config/parser.rs, and src/config/reload.rs; Reload.Outcomes
--   Server      src/server.rs; Server.Proxy is the request that goes to the origin, and
--               Server.Proxy.Exchange how that comes out;
--               Server.Listener accepts connections, for the health server too, and
--               Server.Listener.Connection takes the requests of one connection
--   System      the tasks as steps of a relation; System.Sound, System.Interleaving,
--               System.Keys, System.Limited, System.Reported, System.History, System.Counted;
--               System.Watch adds the watcher of the configuration file and its channel;
--               System.Halfway takes a reload in its parts, with the other tasks between them
--   Main        src/bin/upstreamer/main.rs, from the arguments to the tasks, and to the end of
--               the program in Main.Ends
--   Backend     src/examples/bench-backend.rs, the backend of the benchmarks
--   Tests       examples at concrete data; Tests.OfUnits is the source's own unit tests
--
-- How the code is read. A method that changes `self` returns the new value. Time is an argument:
-- an `Instant` is a number of nanoseconds. Machine integers wrap at their width, as in a release
-- build. `f64` and `rand` are parameters, and a theorem that rests on laws of theirs has the
-- laws as a hypothesis; the bound on a rate over time is stated for arithmetic without rounding,
-- since rounding may exceed it by a few units in the last place. A request is modelled in two
-- steps, up to the choice of an origin and after the origin's answer, because other tasks run in
-- between. The exchange loop of `record_latency` runs against a list of the attempts that it
-- meets, and Balance.Latency says which lists are long enough; the digits of a number are
-- printed on fuel of its value plus one, which is more than its digits.
--
-- Parameters, with what the code relies on as named laws where a theorem needs them: what the
-- sockets bring (a list of the results of `accept`), the client of the cluster and the stream of
-- its watcher, which texts are URIs, and hyper's server of one connection. The input of that
-- server is a list of requests and, where it cannot be read, of its error; each response is sent
-- and the connection kept open, or sent and the connection closed, or cut off; the server ends
-- at the first of these that ends it, and at an error of the service, which then sends no
-- response.
--
-- Not modelled: bytes on sockets, timers, logging, the exporter of the metrics, the parsing of
-- the arguments, the file system's watcher (that a change is notified is taken of it), and the
-- deserialization by serde. The body of a response is one list of bytes: the code passes it on
-- frame by frame, and that it can fail after the headers are sent is only a response that is cut
-- off in Server.Listener. A client that goes away while its request is at an origin, whose task
-- hyper then drops, is left out, and so is the replacing of the watched file by another. A step
-- of a task is taken as a whole, except that a reload is also taken in its parts in
-- System.Halfway, and the updates of one origin's state in their atomic operations in
-- Balance.Atomics. The courses of the checker's and of the discovery's task are those of the
-- task alone; with the other tasks between its steps it is part of System.
pub mod Common
pub mod Text
pub mod External
pub mod Config
pub mod Balance
pub mod Route
pub mod RateLimit
pub mod Errors
pub mod State
pub mod Health
pub mod Metrics
pub mod Cli
pub mod Reload
pub mod Server
pub mod System
pub mod Main
pub mod Backend
pub mod Tests
