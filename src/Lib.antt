-- ===== src/Lib.antt =====
-- App Health: a model of the repository's own TypeScript, with the theorems that make it correct.
--
-- Node.* is packages/node/src, the JavaScript SDK that runs in a customer's process. Transport is
-- transport.ts (`send_batch`), Batching is batch-size.ts (`take_sized_batch`), Diagnostics is
-- diagnostics.ts, and Client is client.ts: the queues, the admission (`enqueue`), the drain
-- (`drain_events`, `drain_logs`, `drain_products`), `flush_queues`, `close_client` and the timer.
-- The client's asynchrony is a sequence of calls (`Call`), one for each turn of the event loop at
-- which its state can change, and `step` is one of them. The result of a request is any
-- `TransportResult`, so the theorems hold for every network.
-- Normalize is normalize.ts, and Events is buildEventV1 of client.ts, which is what `record` queues.
-- Logs is log.ts, which is what `log` queues.
-- Js holds the values of JavaScript that they inspect: numbers as dyadic fractions, strings as code
-- units.
-- Probe.* is apps/probe/src, the scheduled journey probe: Incident is incident.ts (`advance`),
-- and Run is run.ts (`run_probes`) with the logs of emit.ts, from what the journeys' measurement
-- found.
-- Contracts.* is packages/contracts/src, what the parts agree on: Routing is the routing of log.ts
-- (`route_logs`), Breach is evaluateSustainedBreach of performance.ts, Histogram is the
-- normalization of legacy histograms in constants.ts.
-- Worker.* is apps/worker/src: Sketch is distinct-sketch.ts, the count of distinct digests
-- (`add_digest`, `merge`, `snapshot`), whose dense text is modelled as the bytes it decodes to.
-- Memory is in-memory-adapter.ts with capability-store.ts, one module for each repository: Keys
-- (objects in a heap, since both maps hold the same ones), PublicKeys with the browser quota,
-- Environments with the apps, Installation, Dedupe, Buckets, Endpoints, Failures, Logs and
-- Capabilities. Service is service.ts over them: `resolve_scope`, `ingest` in Endpoints, and
-- `ingest_logs` and `ingest_browser_logs` in Logs. What a client meets there in order is the key,
-- the body, the times, the scope, the claim of the batch and storage. `ingest` is given its storage
-- as `EventStorage`, the operation and what it leaves alone, which the adapter in memory fills.
-- The operations of Memory and Service are runs that nothing interrupts at an `await`: of two
-- requests, one ends before the other starts. `resolveEnvironment` is also modelled with the calls
-- that come in between (Memory.Environments.Interleaving): there its `await` decides what holds.
-- Capacity is endpoint-capacity.ts, CacheSummary is cache-summary-aggregate.ts, and Conversions is
-- the funnel of conversion-evaluator.ts (`session_progress`, `funnel_counts`). Access is
-- access-policy.ts (`owner_route_allowed`), whose path patterns are lists of parts.
-- A JavaScript `Map` is the list of its entries (Js.Maps), and sorting is stable insertion
-- (Js.Sorting).
-- Prelude holds the shared tests, lists and case splits.
--
-- Numbers that the code keeps integral (counts, milliseconds, status codes, bytes) are natural
-- numbers; where the source subtracts from a time, the model adds to the other side. What the
-- runtime decides is a parameter: new ids, SHA-256 (`hash`), the order of `localeCompare`,
-- `JSON.parse`, and what a Zod schema makes of a body. The retry loop of `send_batch` recurs on the
-- rounds that its own bound leaves, so its fuel `max_retries + 1` is the loop's; the digits of a
-- number take its successor as fuel, of which `Js.Numbers.Decimal` shows that it is enough; no
-- other function takes fuel.
-- Not modelled: the serialisation of requests and the network itself (a function from the number of
-- an attempt to a reply), the size of an item in JSON (a function of the item), timers as real
-- time, the floating-point estimate of a sketch, segments of funnels (a test on facts), medians and
-- other floating-point figures, the storage in D1, R2 and Analytics Engine, which is SQL for
-- services of the platform, and the dashboards and routes of apps/web and apps/worker.
pub mod Contracts
pub mod Js
pub mod Node
pub mod Prelude
pub mod Probe
pub mod Worker
