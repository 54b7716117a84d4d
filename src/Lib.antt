-- ===== src/Lib.antt =====
-- Verification of QuicServe, an RPC system over WebTransport and HTTP/3.
--
-- A client serializes a request, writes it as one frame on a bidirectional stream and waits on a
-- channel of its own. A session of the server reads frames from that stream, looks up the service that
-- the method's name starts with, runs it under a timeout, and writes one response for each request. The
-- client's response handler reads the responses and hands each to the caller whose request id it
-- carries. Configurations say how both sides are set up, and a few utilities parse what users type.
--
--   Error              src/error.rs: the errors, their texts, conversions from other errors.
--   Message            src/lib.rs: requests, responses, formats, `serialize` and `deserialize`.
--   Transport          src/transport.rs: `MessageStream`, `ProtobufCodec` and `JsonCodec`.
--   Utils              src/utils.rs: formats and method names (Format), `retry_with_backoff` (Retry),
--                      `validate_connection_params` (Params), `parse_socket_addr` (Address), streams and
--                      certificate files (Streams).
--   Config             src/config.rs: the record and its defaults; `build_client_config` (Client),
--                      `build_server_config` (Server); what they build (Quinn).
--   Service            src/lib.rs: the `Service` trait, and tokio's `timeout` around a call.
--   Server             src/server.rs: `new` and `register_service`; `serve` and `handle_connection`
--                      (Connection); `handle_session` (Session), and the sessions of one server
--                      interleaved (Sessions).
--   Client             src/client.rs: the shared state and `call` up to its wait; the rest of `call`
--                      (Wait); `start_response_handler` (Handler); `new`, `connect` and `close`
--                      (Lifecycle); the tasks of a client in any order (Events), what they deliver
--                      and to whom (Routing, Once), a whole handler (Task), `close` (Closing), a
--                      call as its locked sections (Sections), many calls (Batch, Apart), `call` as a
--                      whole (Whole).
--   Cli                src/bin/quicserve.rs: arguments; `run_server` (Serve), `run_client` (Connect),
--                      `main` with `configure_logging` of src/utils.rs (Main); ends and errors (Exit).
--   Bindings           src/bindings/python.rs: exceptions (Python), options (Options), payloads and services
--                      written in Python (Calls), `PyClient` and `PyServer` (Serving), the methods
--                      that wait (Remote), the module itself (Module).
--                      src/bindings/php.rs: callbacks, services and the registry (Php), the functions
--                      that PHP calls (Serving), the references they hold (Memory).
--                      src/bindings/node.rs: services (Node), configurations (Options), the client and
--                      the server object (Objects), the module (Init).
--   Examples           examples/rpc_server.rs: `EchoService` (Echo), `ComputeService` (Compute) with
--                      `multiply_matrices` (Matrix), `generate_self_signed_cert` (Certificates) and `main`
--                      (Started); `main` of examples/rpc_client.rs (Script), and its first call
--                      answered by the example server (Conversation).
--   Benchmarks         benches/benchmarks.rs: its service, its server and what an iteration does.
--   Rpc                calls through client and server: one, one as a whole amid what else the client
--                      does (Served), and many at once (Pipeline).
--   Prelude            names, tests, lists, text and maps that the others share.
--   Tests              examples on small inputs.
--
-- The children of a module that are not named here hold what follows from its definitions.
--
-- Modelling. Numbers are natural numbers, a `u64` that wraps is reduced modulo 2 ^ 64. Async functions
-- are functions from states to states: the shared state of a client is a record, and interleaved tasks
-- are a list of events, each one section of the code under a lock. A service may read and change a state
-- of any type, and a run of it says how long it waits; the time that it runs without yielding, which
-- tokio's timeout cannot cut off, does not count. A stream is the list of frames that it will still
-- yield and the list of those that were written. A `HashMap` is an association list with one entry per
-- key. A function that may panic returns an `Outcome` with a constructor for that.
--
-- Parameters. serde_json and prost are a `Codec`, which is lawful if decoding what it has encoded gives
-- the value back; tokio's timer, tokio-util's framed writer, quinn, rustls, rustls_pemfile, h3, pyo3,
-- napi, PHP's functions, rcgen, env_logger and the file system are records of functions. What they are assumed
-- to do stands in the theorems' hypotheses, and Tests instantiates them by concrete functions.
--
-- Fuel. `session_loop` and `handler_loop` run on one more round than there are frames to come, since
-- each call of `receive` takes one or ends the loop. `retry_loop` runs on the maximal number of attempts
-- and one more.
--
-- Not modelled: log messages, metrics, the timing and random id helpers of src/utils.rs, the measurements of
-- benches/benchmarks.rs and generated code. The files of the bindings for other languages are empty.
pub mod Prelude
pub mod Error
pub mod Message
pub mod Transport
pub mod Utils
pub mod Config
pub mod Service
pub mod Server
pub mod Client
pub mod Rpc
pub mod Cli
pub mod Bindings
pub mod Examples
pub mod Benchmarks
mod Tests
