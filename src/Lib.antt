-- ===== src/Lib.antt =====
-- Mitigador, a detector of volumetric attacks for providers' networks: the detector of the server
-- under internal, and the single-page application under web/src, which shows what it detects.
--
-- The parts and how they interact. The server counts the flow records of each host in a ring of
-- buckets, one for each second (internal/aggregate), and keeps the last records in a buffer
-- (internal/flow/recent.go). Once a second the engine (internal/detect/engine.go) looks at every
-- active host: it finds the host's rules by the longest prefix (thresholds.go), takes a snapshot of
-- its buckets, classifies their traffic (classify.go) and hands the averages to the state machine
-- of the host and vector (state.go), which starts, updates and ends attacks. Its events go over a
-- bus (internal/alert/bus.go) to the recorder (internal/incident), and to a broker
-- (internal/api/sse.go) that streams them to the clients. In the client every page talks to the
-- server through one wrapper of `fetch` (web/src/api/client.ts), which adds a token against
-- cross-site requests to what changes something. A store keeps the signed-in user
-- (web/src/stores/auth.ts), and the router asks it before each route (web/src/router/index.ts).
-- Another store keeps the active attacks (web/src/stores/incidents.ts): the live page fills it from
-- a snapshot and then from a stream of events (web/src/api/sse.ts). The page of the top talkers
-- polls the server, and draws one host's traffic in a chart. The pages of the flows and of the
-- analytics poll it for its summaries; those of the incidents, the exporters and the routers load a
-- list, and the last one changes it too.
--
-- The files. Base has the shared names, tests and lists, and Decimal below it prints numbers.
-- Api.Http has requests, replies and errors; Api.Client is web/src/api/client.ts, its children
-- prove what it sends and what it returns; Api.Sse is web/src/api/sse.ts; Api.Traffic,
-- Api.Dashboard and Api.Mikrotik are the requests of web/src/api/traffic.ts, dashboard.ts and
-- mikrotik.ts. Stores.Auth and Stores.Incidents are the two stores. Router is
-- web/src/router/index.ts and, in Router.Sidebar, web/src/components/SidebarNav.vue; Layout is the
-- language of the pages, web/src/locales/index.ts and its button in
-- web/src/components/AppLayout.vue. Browser has intervals, and pages that poll with them.
-- Views.Dashboard is web/src/views/DashboardView.vue, with the pending timers in its state;
-- Views.Traffic is web/src/views/TrafficView.vue, with what a button of its drawer leaves running
-- in Views.Traffic.Hidden, Views.Flows FlowsDashboardView.vue beside it, with what its cards show,
-- Views.Analytics AnalyticsView.vue, with the data of its charts, Views.Settings
-- SettingsMikrotikView.vue, Views.IncidentList IncidentListView.vue, Views.IncidentDetail
-- IncidentDetailView.vue, Views.Exporters ExportersView.vue and Views.Login LoginView.vue.
-- Aggregate is internal/aggregate, with its ring against the sums by second in Aggregate.Window;
-- Recent is internal/flow/recent.go, against the list of all records in Recent.Refine. Detect has
-- the events and rules; Detect.Catalog is internal/detect/thresholds.go, Detect.Machine state.go,
-- with the contract on the events of one host and vector in its child Contract, and Detect.Engine
-- engine.go and classify.go, with the contract for all hosts and vectors in its own child Contract.
-- Records is internal/incident/recorder.go and what store.go writes, with the rows of the attacks
-- against the contract in Records.LastEvent, and what store.go reads in Records.Query, with its
-- pages against the client's in Records.Query.Paging. Server.Incidents is
-- internal/api/incidents.go, with its replies in the child Replies, and in Requests the client's
-- requests as the server reads them. Fanout is internal/alert/bus.go, and what internal/api/sse.go
-- does in the same way; Server.Broker is the broker and the handler of sse.go, and Server.Events
-- its events, put together with the client's store; Server.Gap follows a client that loads its
-- snapshot before it connects. Server is internal/api/csrf.go and auth.go with the middleware in
-- front of them, and Server.Exchange puts the client and it together, Server.Lockout follows a page
-- after a logout. Components.Chart is web/src/components/HostTrafficChart.vue, Components.Indicator
-- web/src/components/SSEIndicator.vue. Format has the formatters of all pages. Tests has runs on
-- concrete inputs.
--
-- How the code is modelled. Functions have the names of the code's, in snake case. A component's
-- state is a record, a handler a function on it. An `async` function of the client or a store is an
-- action on the client's state that returns or throws, with the replies of the network as
-- arguments, so that a theorem for all replies covers every server. A handler of a page that awaits
-- is two functions, up to the `await` and from it on, on the pages of the top talkers, the flows,
-- the analytics, the exporters, the routers and the list of incidents, and so is the mounting of
-- the live page, so that other events may come in between. The load of the live page's summary,
-- that of one incident, the submission of the login, the logout and the actions of the stores are
-- each one step from the call to the end. A response's body is read as the type that the code casts
-- it to. Rates are whole numbers, as the server sends them; the quotient that `toFixed` prints is a
-- parameter that rounds to the nearest, up to ten terabits per second, beyond which the rounding of
-- the floating point quotient itself could show. A date is its number of milliseconds, and a text
-- that the pages show is the list of the pieces that they join. All loops are over lists or a
-- count, and need no fuel but for the digits of a number in Base.Decimal, whose fuel is one more
-- than the number; Server.Incidents.Requests reads them back. A product of two of the client's
-- numbers and its printed text are parameters too (`Doubles`), exact up to 2 ^ 53. On the server a
-- panic is the outcome none, a uint64 wraps around at 2 ^ 64, an int64 is its 64 bits and is
-- compared as a signed number, an instant is its number of nanoseconds, and a map is a function or
-- a list of its entries. What several goroutines do, such as records that come in, ticks, and the
-- bus that empties the engine's channel, is a list of steps in any order, since each holds the lock
-- of what it changes. The shares of the flows page are exact quotients before `Math.round`, which
-- below 2 ^ 40 packets or bits is what the floating point division gives too; a sparkline's points
-- are fractions, before they are printed.
--
-- Not modelled. The packages (Vue, its router and store, the chart and the event source) are not
-- part of the repository; what the code relies on of the event source is the record `Driver`, and
-- what the server relies on of the package of its sessions the record `Manager`. The package of the
-- identifiers of attacks is a parameter of the state machine, and so is the confidence
-- (internal/detect/score.go), which is computed with floats. The database is a list of rows for
-- each table, on which the statements that write do what their text says; how it rounds an instant
-- and which group has a name are parameters. Markup and translations are left out, but for the
-- branches, rows and texts of the templates that depend on the state, and so is the rest of the
-- server: the intake of records, the tables and the other endpoints. Of the bus and of the broker
-- the end of the process is left out.
pub mod Base
pub mod Api
pub mod Server
pub mod Aggregate
pub mod Detect
pub mod Recent
pub mod Records
pub mod Stores
pub mod Fanout
pub mod Layout
pub mod Router
pub mod Views
pub mod Format
pub mod Browser
pub mod Components
pub mod Tests
