-- ===== src/Tests/Startup.antt =====
-- src/bin/tiny-httpd.rs at concrete configurations.
use tiny_httpd.Base.{ℕ, ◌≡◌, ◌↔◌, refl, some, none, [], ◌∷◌, Option, Bytes, codes, ok, err}
use tiny_httpd.Fs.Error.{other}
use tiny_httpd.Startup.SocketAddr.{socket_port}
use tiny_httpd.Startup.Listen.{parse_listen_addr}
use tiny_httpd.Startup.Listen.Accepted.{Accepts, parse_listen_addr_iff}
use tiny_httpd.Startup.Listen.{has}
use tiny_httpd.Startup.Listen.Port.{IsPort}
use tiny_httpd.Startup.Listen.Uniform.{parse_listen_addr_uniform}
use tiny_httpd.Base.{◌++◌, ◌≢◌, false}
use tiny_httpd.Startup.CommandLine.{
  default_values, parse_config, IsRead, ReadsPaths, parse_config_iff,
}
use tiny_httpd.Startup.Signal.{sigterm, ctrl_c}
use tiny_httpd.Startup.Signal as Signal
use tiny_httpd.Base.{if◌then◌else◌, Result, bytes_eq, true}
use tiny_httpd.Startup.ContentRoot.{
  prepare_content_root, Prepared, prepare_content_root-Prepared, parse_duration,
}
use tiny_httpd.Startup.Main.{Config, server, Runtime, main}
use tiny_httpd.Startup.Main.Ordered.{
  initialized, inspected, canonicalized, bound, served, flushed, Outcome, main_ordered,
}
use tiny_httpd.Base.{ℕ, List}
use tiny_httpd.Server.Params.{default_params}
use tiny_httpd.Server.Accept.{Event, shutdown_signal, window_elapsed, accepted, joined}
use tiny_httpd.Server.Accept.Whole.{run_with_shutdown, Ends, run_with_shutdown-Ends}
use tiny_httpd.Tests.Site.{disk}

-- No text is a socket address here, so each goes the way of `host:port`.
abbrev no_address : Bytes → Option ℕ
no_address value = none

named_host : parse_listen_addr no_address (codes "localhost:3000") ≡ ok (codes "localhost:3000")
unfolding parse_listen_addr
named_host = refl

bare_ipv6 :
    parse_listen_addr no_address (codes "::1:8080")
    ≡ err (codes "IPv6 addresses must be enclosed in brackets, e.g. [::1]:8080")
unfolding parse_listen_addr
bare_ipv6 = refl

large_port :
    parse_listen_addr no_address (codes "localhost:65536")
    ≡ err (codes "port must be a valid 16-bit unsigned integer")
unfolding parse_listen_addr
large_port = refl

too_short :
    parse_duration (λ value. ok 999) (codes "999ms") ≡ err (codes "duration must be at least 1s")
unfolding parse_duration
too_short = refl

parse_listen_addr_iff_example :
    (parse_listen_addr no_address (codes "localhost:3000") ≡ ok (codes "localhost:3000")) ↔ (
      (codes "localhost:3000" ≡ codes "localhost:3000")
      × Accepts no_address (codes "localhost:3000"))
parse_listen_addr_iff_example =
    parse_listen_addr_iff no_address (codes "localhost:3000") (codes "localhost:3000")

prepare_content_root-Prepared_example :
    Prepared disk (codes "/app/docs") tt (prepare_content_root disk (codes "/app/docs") tt).0
prepare_content_root-Prepared_example = prepare_content_root-Prepared disk (codes "/app/docs") tt

abbrev config : Config
config = record {
  listen_addr = codes "0.0.0.0:8080";
  content_root = codes "/app/docs";
  service_name = codes "tiny-httpd";
  header_read_timeout = 30000;
  idle_connection_timeout = 60000;
  graceful_close_timeout = 5000;
  drain_timeout = 10000;
}

-- The server fails, and the telemetry too when it is flushed.
abbrev failing : Runtime (Unit {0}) (Unit {0}) (Unit {0}) (Unit {0})
failing = record {
  init_telemetry = λ name w. (ok tt, w);
  bind = λ addr w. (ok tt, w);
  run_with_shutdown = λ listener params w. (err (record { kind = other }), w);
  shutdown_telemetry = λ guard w. (err tt, w);
}

main_ordered_example : Outcome {E = Unit {0}} config (err (server (record { kind = other }))) (
    flushed
    ∷ served (record {
      content_root = some (codes "/app/docs");
      header_read_timeout = 30000;
      idle_connection_timeout = 60000;
      graceful_close_timeout = 5000;
      drain_timeout = 10000;
    })
    ∷ bound (codes "0.0.0.0:8080")
    ∷ canonicalized (codes "/app/docs")
    ∷ inspected (codes "/app/docs")
    ∷ initialized (codes "tiny-httpd")
    ∷ [])
unfolding main disk
main_ordered_example = main_ordered disk failing config tt

-- The signal at one second; a connection in the drain window, joined in the drain.
abbrev quiet : List (ℕ × Event)
quiet =
    (1000, shutdown_signal (ok tt))
    ∷ (1100, accepted (ok tt))
    ∷ (1250, window_elapsed)
    ∷ (1300, joined 0)
    ∷ []

run_with_shutdown-Ends_example : Ends (ok tt) quiet (ok tt)
unfolding run_with_shutdown
run_with_shutdown-Ends_example = run_with_shutdown-Ends (ok tt) default_params quiet (ok tt) refl

addresses :
    (socket_port (codes "127.0.0.1:3000") ≡ some 3000)
    × (socket_port (codes "[::1]:8080") ≡ some 8080)
    × (socket_port (codes "[fe80::1%2]:080") ≡ some 80)
    × (socket_port (codes "[1:2:3:4:5:6:1.2.3.4]:1") ≡ some 1)
    × (socket_port (codes "[1:2:3:4:5:6:7:8]:0") ≡ some 0)
    × (socket_port (codes "[::]:65535") ≡ some 65535)
unfolding socket_port
addresses = (refl, refl, refl, refl, refl, refl)

no_addresses :
    (socket_port (codes "1.2.3.04:80") ≡ none)
    × (socket_port (codes "256.1.1.1:80") ≡ none)
    × (socket_port (codes "::1:8080") ≡ none)
    × (socket_port (codes "[::1]") ≡ none)
    × (socket_port (codes "[1.2.3.4::]:80") ≡ none)
    × (socket_port (codes "[::1]:65536") ≡ none)
    × (socket_port (codes "1.2.3.4:80 ") ≡ none)
    × (socket_port (codes "[1:2:3:4:5:6:7:8::]:1") ≡ none)
unfolding socket_port
no_addresses = (refl, refl, refl, refl, refl, refl, refl, refl)

parse_listen_addr_uniform_example :
    (codes "[::1]:8080" ≡ codes "[::1]:8080")
    × ((host port : Bytes) × (number : ℕ) × (codes "[::1]:8080" ≡ host ++ (b':' ∷ port))
        × (has b':' port ≡ false)
        × (host ≢ [])
        × IsPort port number
        × (number ≢ 0))
unfolding parse_listen_addr socket_port
parse_listen_addr_uniform_example = parse_listen_addr_uniform (codes "[::1]:8080") refl

-- It reads the defaults, and no other text.
unfoldable few_durations : Bytes → Result Bytes ℕ
unfolding bytes_eq
few_durations text =
    if bytes_eq text (codes "30s")
    then ok 30000
    else if bytes_eq text (codes "60s")
    then ok 60000
    else if bytes_eq text (codes "5s")
    then ok 5000
    else if bytes_eq text (codes "10s")
    then ok 10000
    else err (codes "no number found")

unfoldable path_buf : Bytes → Result Bytes Bytes
path_buf [] = err (codes "a value is required")
path_buf (b ∷ path) = ok (b ∷ path)

path_buf-ReadsPaths : ReadsPaths path_buf
unfolding path_buf
path_buf-ReadsPaths [] root = ((λ h. cc), (λ (present, same). absurd (present refl)))
path_buf-ReadsPaths (b ∷ path) root = ((λ h. ((λ e. cc), cc)), (λ (present, same). rw same refl))

abbrev default_config : Config
default_config = record config { content_root = codes "/app/public" }

parse_config_iff_example :
    (parse_config path_buf few_durations default_values ≡ ok default_config)
    ↔ IsRead path_buf few_durations default_values default_config
parse_config_iff_example =
    parse_config_iff path_buf few_durations path_buf-ReadsPaths default_values default_config

defaults_read : parse_config path_buf few_durations default_values ≡ ok default_config
unfolding parse_config path_buf few_durations socket_port
defaults_read = refl

signals :
    (Signal.shutdown_signal true (ok tt) (some sigterm) ≡ some (ok tt))
    × (Signal.shutdown_signal true (err (record { kind = other })) none
        ≡ some (err (record { kind = other })))
    × (Signal.shutdown_signal false (ok tt) (some (ctrl_c (ok tt))) ≡ some (ok tt))
unfolding Signal.shutdown_signal
signals = (refl, refl, refl)
