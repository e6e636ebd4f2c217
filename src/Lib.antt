-- ===== src/Lib.antt =====
-- pok: the Go programs under apps/ that feed the cluster's live page.
--
-- edge proxies the browsers' requests to the other programs. helloworld publishes an event for each
-- visited URL to Kafka, visitcounter adds the events up and publishes a count for each URL,
-- clusterinfo publishes one aspect of the cluster at a time, and wsfeed reads both topics and streams
-- the latest value of each subject to the browsers. awscost estimates what the cluster's machines
-- cost from their inventory and emits that as metrics.
--
-- Prelude: Go's strings as lists of bytes (Bytes), maps and the order of `range` (Maps), signed times
--   (Int), int64 as its bit pattern (Words), the record Floats that stands for float64 and of which
--   no law is assumed (Floats), decimal numbers (Decimal), strconv.Atoi (Atoi), `env` of the
--   environment (Env), Boolean tests and equality of keys (Tests), lists (Lists). Decimal writes
--   numbers with fuel for 20 digits, which an int64 never exceeds.
-- Kafka: the message fields and read outcomes that the apps use of kafka-go. Kafka.Topics is what a
--   reader gets of a compacted topic: each message as it was written, but for messages that a later
--   one of the same key replaced, and with failed reads between.
-- Pipeline: the programs in a row. Pipeline.Edge leads from the browsers' requests at edge through
--   helloworld and visitcounter to the state of wsfeed's hub, Pipeline.Polled from clusterinfo's
--   rounds to that state, and Pipeline.Browser from there to what a session sends its browser.
--   `encode` is the JSON encoder, which only has to give valid JSON.
--
-- Feed.Client (apps/wsfeed/main.go): `envelope`, `client.enqueue`, `client.take`. The channel
--   `notify` of capacity 1 is a Boolean.
-- Feed.Hub (apps/wsfeed/main.go): `hub`, `newHub`, `publish`, `snapshot`, `register`, `unregister`.
--   Clients live at addresses of a heap, so `publish` and a session share them. `range` takes its
--   order as an argument. `unregister` is one step: only `drain` reads the counter between its two.
-- Feed.Hub.Steps: all interleavings of these calls.
-- Feed.Consume (apps/wsfeed/main.go): `consumeClusterInfo`, `consumeVisitCounts` over the sequence
--   of what the reads return.
-- Feed.Session (apps/wsfeed/main.go): `serveWS` and `writeJSON` as a state machine over events of the
--   environment, interleaved with every other goroutine. Feed.Session.Seeded is how a session
--   begins, and Feed.Session.Ended what is left of it once the shutdown is signalled. That JSON
--   replaces what is no UTF-8 in a subject is left out.
-- Feed.Main (apps/wsfeed/main.go): what `main` reads of the environment, and `drain` over what
--   happens while it waits.
--
-- Visits (apps/visitcounter/main.go, apps/helloworld/main.go): the loop of visitcounter's `main` over
--   what its reads return, its counters and replay, and helloworld's `publishVisit`. Visits.Chain
--   follows a visit through helloworld, visitcounter and wsfeed. `url_field` is the parameter for
--   what `json.Unmarshal` finds.
--
-- Web.Clean, Web.Mux: ServeMux of net/http for patterns that are plain paths, with the redirects to
--   the clean path and to the pattern with a slash after it. A path is one without escapes, and the
--   method is not CONNECT; the request "*", which net/http refuses itself, is left out.
-- Web.Edge (apps/edge/main.go): the upstreams, the handlers and the filter of the spans; `parse_url` is
--   the parameter for `url.Parse`. `app_routes` and `static_routes` are the muxes of
--   helloworld and static (apps/helloworld/main.go, apps/static/main.go).
--
-- Cost.Estimate (apps/awscost/estimate.go): `Estimator.Compute`.
-- Cost.Prices (apps/awscost/pricing.go, apps/awscost/poller.go): `PriceBook`, `parseOnDemandUSD` and
--   `Pricer`. The Pricing API is the parameter `get_products`, and `decode` reads its documents.
-- Cost.Inventory, Cost.Poller (apps/awscost/poller.go): the join of the EC2 listings, and the cycles
--   `EmitEstimated` and `EmitActual`, which return the gauges they emit.
-- Cost.Period (apps/awscost/poller.go): the period of the Cost Explorer query, by the calendar of
--   package time, for a clock that is not before 1970.
-- Cost.Emit (apps/awscost/emit.go): the cache of instruments.
-- Cost.Main (apps/awscost/main.go): `runLoops` over the sequence in which its `select` takes the ticks
--   of the two tickers, the environment, and the liveness check. time.ParseDuration is a parameter.
--
-- Cluster.Image (apps/clusterinfo/main.go): `splitImage`, with the functions of package strings in
--   Cluster.Text. Cluster.Sorting: package sort. `sort.Strings` has one result; a `sort.Slice`, which
--   may order equal elements as it likes, is an argument.
-- Cluster.Workloads, Cluster.Services, Cluster.Usage, Cluster.Metrics, Cluster.Cilium,
--   Cluster.Versions (apps/clusterinfo/main.go): all the aspects, from what the Kubernetes API lists.
--   An int32 is its bit pattern. `any` and its type assertions are the parameter Dynamic. A quantity
--   is what its methods return, and `resource.ParseQuantity` is the parameter `parse_quantity`.
-- Cluster.Poll (apps/clusterinfo/main.go): `poll`, its loop in `main`, the list `aspects` and the
--   liveness check, over rounds that give the clock, the random number, what the API answers and
--   whether the broker takes the message.
--
-- `json.Valid` is a parameter `valid`; a mutex section is one step; times are integers. Not modelled:
-- tracing, the HTTP servers and their shutdown, the proxying itself, the served files, kafka-go,
-- websocket and the AWS clients, which are code of others that the programs only set up and call.
pub mod Prelude
pub mod Kafka
pub mod Feed
pub mod Visits
pub mod Cost
pub mod Cluster
pub mod Web
pub mod Pipeline
