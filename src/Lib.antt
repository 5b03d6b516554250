-- ===== src/Lib.antt =====
-- A model of tiny-httpd, a static-file HTTP server for containers. A connection task reads requests
-- with `hyper`; each goes to the handler, which answers a probe or looks a file up below the
-- content root. The accept loop spawns the tasks and, at the shutdown signal, sets two marks that
-- the handler reads, keeps accepting connections for a short window, stops, tells the tasks and
-- waits for them.
--
-- The parts, with the source and the files of the model:
--
-- - src/fs.rs, from a request path to an open file: Fs. Decode has `hex_value` and
--   `decode_percent_path`, Candidates has `validate_relative_path` and `candidate_paths`, Resolve
--   has `resolve_file`; Error, Utf8, FilePath and System hold what they use of the standard library
--   and of `tokio::fs`.
-- - src/metrics.rs: Metrics, the instruments as a log of what is recorded on them.
-- - src/handler/: Handler. Http is what is used of `hyper` and `mime_guess`, State is `AppState`,
--   Response has src/handler/response.rs and src/handler/default_page.rs, with what a body sends in
--   Response.Frames, Routing has `route` and its helpers, Handle has `handle_with_peer_addr` and
--   `request_span`. Routing.Table has the branches of `route` as rules over the result of the lookup,
--   and Routing.Marks the two stores of the shutdown marks between the loads of requests.
-- - src/server/activity_io.rs: Server.ActivityIo, the stream that signals when bytes move; Mock is
--   the stream of its tests.
-- - src/server/accept.rs: Server.Params is `ServerParams`, Server.Connection is `serve_connection`,
--   with its stream in Connection.Idle, Server.Accept is `run_with_shutdown` with
--   `drain_connections`. Server.System puts them together: the accept loop, the tasks it has
--   spawned, each with its own connection loop, and the watch channel that tells them of the
--   shutdown. Its steps are those of the two, chosen in any order. System.Spec is an abstract
--   server, which knows the marks and which connections are left, but not in what order.
--   Server.Serving adds the requests that the connections carry, each in the handler with the state
--   as it was when it began; when its waits for the file system are over is given from outside. With
--   HTTP/1 the future of a request is part of that of its connection, so it is dropped when the task
--   ends. Accept.Whole goes from the call of `run_with_shutdown`, with `local_addr`, to its result.
-- - src/bin/tiny-httpd.rs: Startup. Listen is `parse_listen_addr`, SocketAddr is the
--   `SocketAddr::from_str` of the standard library that it calls, ContentRoot has `parse_duration`
--   and `prepare_content_root`, CommandLine is `Config::parse` on the texts of the options, Signal
--   is `shutdown_signal` and Main is `main`.
--
-- A byte is a number below 256 and text is the list of its bytes. A fallible function returns a
-- `Result` with the constructors of the source's error. Stateful code takes the state and returns
-- it. What is outside the repository is a parameter: the file system is a record of three
-- operations on a world that they may change (Fs.System), the response builder and the media types
-- are `Toolkit`, with `IsLawful` as their documented behaviour, the chunks that an open file is
-- read in are a function of the file, the wrapped stream is `Stream`, and the page of
-- src/default_index.html is a list of bytes. The program's start has as parameters `humantime`, the
-- parser that `clap` has for a path, the telemetry, the network and the texts that `clap` hands on;
-- `parse_listen_addr` also takes the reader of socket addresses, so that it can be read with any.
--
-- The loops over `tokio::select!` are step functions on events: an event says which branch
-- completes, and a step is `none` where the guard of the branch is false. Runs are lists of events
-- with their times, or relations, so that all orders of events are runs. Time is in milliseconds.
--
-- Bounds and fuel. The loop of `decode_percent_path` runs on fuel (Fs.Decode.Loop); one round more
-- than the path has bytes is enough, since each round moves the index. A port is below 65536, with
-- the overflow of the source as an error, and `duration_us` keeps its saturation at 2 ^ 64 - 1.
-- Connection.Overflow has the connection loop with times that an `Instant` cannot hold. Sizes and
-- times are otherwise unbounded numbers.
--
-- A timer is never early. Where a run has timers that are not late, that is a condition of its
-- relation: Deadline and Idle in Server.Connection, Timely in Server.Accept, and Reach in
-- Server.System, which also has the delay until a task hears of the shutdown.
--
-- Not modelled: where the text of an option comes from, and the help texts, in
-- src/bin/tiny-httpd.rs; the groups of an IPv6 address, which are counted and not kept; log
-- messages; `hyper` below the calls of `graceful_shutdown`; the memory order of the atomics, each
-- of which is a value that a request loads at one moment; the conversion of a duration to seconds
-- as a floating-point number; Windows paths.
pub mod Base
pub mod Fs
pub mod Metrics
pub mod Handler
pub mod Server
pub mod Startup
pub mod Tests
