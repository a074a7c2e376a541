-- ===== src/Lib.antt =====
-- A model of the control plane written in Go, with the theorems that make it correct.
--
-- A request passes the session store (who is calling), a rate limiter, the resolver (which org it is about, and
-- whether the caller's role may do the action) and the idempotency layer (whether it has run
-- already), and then its handler, such as those that change the members of an org; a long request
-- is tracked until the process drains; whatever fails is rendered by the error package.
--
-- Which file models which part:
--   Errs          packages/chassis/errs, and Fail of packages/chassis/httpx/errorwriter.go. Code is
--                 the pattern of a code, Catalog is NewCatalog and the transport entries, Build the
--                 builders and constructors, Wire the rendering: Wire, Event, From, Fail.
--   Tenancy       services/api/internal/tenancy. Roles is roles.go; Directory holds the tables and
--                 the queries of middleware.go, Resolve its functions from byOrgSlug to Require.
--   Auth          services/api/internal/auth. Token is token.go; Session is session.go, with the
--                 table in Store, Issue, Verify and rotate in Ops, Revoke, RevokeAllForUser and
--                 Sweep in Admin. Links is magiclink.go, Google google.go, Cookies cookie.go, and
--                 Handlers the routes of handlers.go, with those of Google in Callback.
--   Api           the order of services/api/internal/httpapi/routes.go and Mount of
--                 services/api/internal/v1/handlers.go: Pipeline has Authenticate, the rate limiter,
--                 Require and the idempotency of a route, each a function of what follows it.
--   Idempotency   services/api/internal/idempotency/idempotency.go. Keys is the table with claim,
--                 complete, release and Sweep; Recorder the writer that captures; Wrap the middleware.
--   V1            services/api/internal/v1. Members is invites.go: Store its tables, Invites createInvite
--                 and acceptInvite, Changes removeMember and changeMemberRole. Slugs is slugify and
--                 validSlug of orgs.go. Projects is projects.go: Store its tables, Create, Reads and
--                 Archive the handlers, each in the transaction that Scoped opens. Orgs is createOrg of orgs.go.
--   Db            packages/db/scope.go: the transactions that carry an org and a user as settings.
--   Lifecycle     packages/chassis/lifecycle. Drain is drain.go, its state and methods as calls in any
--                 order, the closing of a channel being a list of the channels closed; Shutdown is
--                 shutdown.go, on the Drain and the registry of Health.
--   Httpx         packages/chassis/httpx. Sse is the wire format of stream.go, with a reader of the HTML
--                 standard in Client; RateLimit is ratelimit.go; Writer is writer.go, on a response whose
--                 headers go out with its status; Peer is ClientIP of log.go, and requestid.go.
--   Health        packages/chassis/health/health.go: the probes, their results and the snapshot.
--   Config        packages/chassis/config/loader.go: Parse is how texts are read, Loader the state and
--                 the accessors of one value, Reads the others, Resolved, and a list of reads;
--                 Chassis is chassis.go with the rules of validate, and error.go.
--   Clock         packages/chassis/clock/clock.go: the fake clock.
--   Prelude       names and lemmas that all of them share: tests on numbers, tables, texts.
--   Examples      runs at concrete inputs.
--
-- How state and operations correspond to the code. A table of the database is a list of rows, and a
-- statement is a function on that list, written from its SQL. An operation takes the tables, the
-- clock's reading and a function that says which statements the database refuses, and gives back the
-- tables and its result; a transaction that fails gives back the tables it began with. A failing
-- operation returns the error that the code wraps. Row-level security is written out where a
-- statement relies on it. A call or a handler runs whole, one after another; what READ COMMITTED allows
-- between the statements of two that run at once is not modelled. An id is a number, with 0 for uuid.Nil; a time and a duration are numbers
-- of nanoseconds; a body is a list of bytes. Sums of times are not bounded, the ones of the source
-- being far from the range of an int64.
--
-- What is a parameter: the parsing of addresses by net and netip, sha256 (the hash of a token, the
-- digest of a body), the random source (an
-- absent token when it fails), the handler that the idempotency layer wraps, what a probe's Check
-- gives, Google's token endpoint with the decoding of its token, NormaliseEmail, the parsers of
-- durations, levels, URLs and prefixes with the printers of numbers, and the clock. Two loops run on fuel: the digits of a number, with one turn more than the number, and the
-- re-arming of a ticker, with a turn for each unit of time since its deadline. More would change
-- nothing. The tokens of a rate limit are exact, where the source has float64.
--
-- What is not modelled: the list of the members of an org; the HTTP server, the router and the decoding of bodies; logging, tracing and
-- metrics; the generated schema types; required variables read as floats; the ip and the user agent of a session, which nothing reads back; the consoles and the workers in
-- other languages.
pub mod Prelude
pub mod Errs
pub mod Tenancy
pub mod Auth
pub mod Idempotency
pub mod Lifecycle
pub mod Httpx
pub mod Health
pub mod Clock
pub mod Config
pub mod V1
pub mod Db
pub mod Api
pub mod Examples
