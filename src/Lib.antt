-- ===== src/Lib.antt =====
-- A model of the web client of the network diagnosis tool, with its proofs.
--
-- The client (frontend/) sends report requests to the backend, keeps the state of each request, reads
-- the responses, and shows the results: the common prefix of the targets and the topology of the
-- routes.
--
-- CommonPrefix.* is frontend/common-prefix.js: `parseAddressBits` (Parse), `formatValue` (Format),
-- `computeGroup` (Group) and `computeCommonPrefix` (Report). Numbers of the source are BigInts, so
-- natural numbers with the masks written out. The zone of an IPv6 address, the `::` notation and the
-- mapped IPv4 addresses are read as the source reads them.
--
-- Requests.* is the part of frontend/state.js that keeps requests: `createRequestLane`, `ownsRequest`
-- and `transitionRequest` (Lane), `normalizeRequestError` and `parseRetryAfter` (Errors),
-- `parseStrictAPIErrorJSON` (ApiError), `canonicalAPIBase` (ApiBase), the canonical inputs and
-- `clientTimeoutMS` (Inputs), and `API_ERROR_REGISTRY` with the error branch of `parseResponse`
-- (Response). A lane is a record, an event that throws leaves it as it was. A string is the list of its
-- UTF-16 units. The reader of API errors is a state monad over the rest of the body, the depth and the
-- counts; its loop over a string has as many rounds as the body has units, its loops over members have
-- four and two, which is more than the limits on properties let a body use.
--
-- Topology.* is frontend/topology-model.js and frontend/topology-presentation.js. Data holds nodes,
-- links and routes, RouteOrder `fairRouteOrder`, View `filterTopologyModel`, Select the selection of
-- `planTopologyDOM` (the loops over routes, with one round more than there are steps left), Present
-- `presentTopology` up to its cut (Present.Cut), Annotate `annotateASN`, whose loop over a route has as
-- many rounds as hops, Mount the items that `planTopologyDOM` mounts and their chunks, and Plan all of
-- this composed. Keys of pairs are texts with a zero unit between, as in the source. Finite coordinates
-- are only handed on. An infinite budget is `none`.
--
-- Compact.* is `normalizeCompactTopology` of frontend/state.js: its checks on a topology whose fields
-- have the names and types of the schema (Compact, Compact.Checks). The URL parser of the platform is a
-- parameter of Addresses, and its URL objects, with the setter of the path, are one of
-- Requests.ApiBase; ApiBase.Stable lists what its theorem asks of them.
--
-- Addresses is the part of frontend/topology-presentation.js that tells public addresses from others:
-- `addressBits`, the lists of networks, `addressClass` and `canonicalPublicIP`.
--
-- Topology/Legacy is the adapter that makes a model from the attempts of a report,
-- `adaptLegacyTopology` of frontend/topology-model.js. Address is `canonicalIP` with its parsers,
-- Routes `legacyRoutes`, Choice the rounds that accept steps of routes, Sums what the routes have
-- together, and Model the model itself. A path goes to higher hops only, so that the highest hop bounds
-- it; the rounds run on a fuel above the steps that are left to try. A status, an identity or an edge
-- that is not there is `none`; latencies are exact numbers, and an average is a sum and a count.
-- Letters of a host name outside ASCII keep their case.
--
-- IpContext is the supplementary context of an address, of frontend/state.js. The reader of an answer:
-- Number is `contextNumber`, Json `contextJSON`, whose recursion runs on a fuel above the length of the
-- text, Address `contextIP`, Schema the checks from `contextObject` to `contextCount`, Parts and Check
-- `normalizeIPContext` and Reader `parseIPContext`. Check.Reading says how an accepted value is read
-- and what bytes it is written in, and Check.Forms what its parts then say. Values are those that
-- `contextJSON` makes, so that accessors, symbols and holes do not occur; every exception is `none`.
-- The controller, `createIPContextController`: Controller is its state and the calls of the page,
-- Request a request from `query` to its cleanup. A run is a list of events, each with what the two
-- clocks and the page say then; time stands still within an event, and what the code awaits is a stage
-- of the request. A request that a cancelled body keeps waits for its cleanup. Callbacks of the page
-- only watch. The reader is a parameter of the controller, of which its theorems ask only that an
-- accepted context is about the address that was asked for.
--
-- Not modelled: `snapshotPlainData` and `clonePlain`, which copy plain data, since values here are
-- immutable; the last sorting of the presented nodes; `compactModel`, which copies a compact topology;
-- the reasons and statistics of a plan; the other normalizers of reports in frontend/state.js; the
-- document and the canvas (frontend/app.js, topology-renderer.js, topology-visualizer.js, geo-map.js);
-- the backend and the Android client, which are other programs.
pub mod Prelude
pub mod CommonPrefix
pub mod Requests
pub mod Topology
pub mod Compact
pub mod Addresses
pub mod IpContext
