-- ===== src/Lib.antt =====
-- A model of sturnus, a proxy that spreads requests for a language model alias over the providers
-- which serve it. A client sends an OpenAI-style request; the proxy reserves memory for the body,
-- reads its `model` field, looks up the alias, picks a candidate by recent latency and success,
-- rewrites the body for it, forwards it, and records how the candidate did.
--
-- The parts, each with its source and how the model follows it:
-- * Config (src/config.rs): the configuration as records with the source's fields. `validate`,
--   `listen_addrs` and `resolved_headers` are Result-valued functions with the source's order of
--   checks (Config/Checks); an error is a constructor with the names that the message quotes.
--   Config/Budget reads a control group's limit from the text of its files. Config/Loading has load and
--   load_env_dir, over the contents of the files, and Config/Defaults the values left out.
-- * ModelMap (src/model_map.rs): `from_config` passes the tracker and the `dedup` map, a Registry,
--   from candidate to candidate. Candidate holds the types that routing shares.
-- * Tracker (src/tracker.rs): a slot for each provider and model, with two latency averages and a
--   success rate. Every atomic operation is one function on the slot's value.
-- * Router (src/router.rs): the weights of the candidates, the Weyl sequence over the alias's
--   counter, and the walk that picks a candidate.
-- * Admission (src/server.rs, BufferBudget and the guards of handle_request): permits for request
--   bodies; requests in flight are a step relation over admissions and releases.
-- * Handler (src/server.rs, handle_request): the affinity pin, the choice of the candidate, and what
--   the tracker is told of the result.
-- * Server (src/server.rs): the shared state; handle_request, cut where it awaits, as transitions of
--   that state (Server/Stages), end to end (Server/Handle), and as a step relation over requests in
--   flight together (Server/Serving); the health, status and metrics pages (Server/Observability).
-- * Metrics (src/metrics.rs): the counters and histograms that the handler reports to.
-- * Credentials (src/gcp_auth.rs): the detection of Google credentials, and the token.
-- * Listeners (src/server.rs): the roles, the accept loop and the drain of a listener, and the order in
--   which the two listeners stop, as a step relation.
-- * Startup (src/main.rs): `main` from the command line on (Startup/Command), the state that it makes
--   of a configuration (Startup), and the health probe (Startup/Healthcheck).
-- * Headers (src/proxy.rs): the header names that the proxy sets or strips.
-- * Proxy (src/proxy.rs): the URL and the outbound body (Proxy), the request's headers and
--   forward_request (Proxy/Request), what becomes of the response (Proxy/Response). The upstream is
--   a function from the request to the response or an error, a stream is the list of its items, and
--   a future is its result.
-- * Body (src/body.rs): a JSON object whose values stay raw text.
-- * Trace (src/trace.rs): the traceparent header, over lists of code points, and the span of a request.
-- * System (src/main.rs): the tracker of startup, and a routed request of a validated configuration.
--
-- They meet in the slot index: ModelMap hands out indices that the tracker has, the router reads
-- the slots of the candidates and never leaves the tracker's range, and Tracker keeps the slots in
-- the form that the router's weights need. Config/Validation says what ModelMap may rely on.
--
-- Numbers: a machine word is a native number with its bound or its `% 2 ^ 64` written out; `usize`
-- has 64 bits. Floating point is the interface F64; F64.IsIeee names the facts of IEEE 754 that
-- the theorems use, and F64/FixedLaws shows a fixed-point instance of them, over which the tests
-- run. Loops are structural recursion, so no function needs fuel.
--
-- Parameters, since their code is elsewhere: the http crate's header maps (Http), tokio's semaphore
-- (Admission/Permits), the vectors of prometheus (Metrics), serde_json as the entries or errors of its
-- parser (Body), the calls of Proxy (Proxy.Json) and the values of its macro (Server.Env), the upstream
-- and the token (Proxy/Request), the gcp_auth crate and the clock (Credentials), the parser of socket
-- addresses (Config/Checks), those of toml and shellexpand (Config/Loading) and dotenvy
-- (Startup/Command). Http/Table, Metrics/Table, Admission/Permits and Startup/Sample have instances
-- that run.
--
-- The upstream's answer to a request is one step: the outbound body is dropped, and its permits are
-- back, in a step of its own in Server/Serving, and before the result is recorded in Server/Handle.
--
-- Not modelled: the system calls that read files, whose results are arguments, load_env_file, which is
-- one call of dotenvy (src/config.rs), logging, the HTTP protocol of hyper, a run without a metrics
-- listener as a step relation, since it is one run of Listeners (src/server.rs), and of src/main.rs
-- and src/lib.rs the parser of the command line, the client of reqwest, sockets and signals, which
-- are input and output.
pub mod Prelude
pub mod F64
pub mod Body
pub mod Trace
pub mod Http
pub mod Headers
pub mod Config
pub mod Admission
pub mod Candidate
pub mod Tracker
pub mod ModelMap
pub mod Proxy
pub mod Router
pub mod Handler
pub mod System
pub mod Metrics
pub mod Server
pub mod Credentials
pub mod Startup
pub mod Listeners
