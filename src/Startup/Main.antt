-- ===== src/Startup/Main.antt =====
-- src/bin/tiny-httpd.rs, `Config`, `MainError` and `main`. The crate `telemetry-setup` and the
-- network are parameters; `run_with_shutdown` enters by its result. Orderly takes the result of
-- `Server.Accept.Whole` for it.
pub mod Ordered
use tiny_httpd.Base.{ℕ, Option, none, some, Bytes, Result, ok, err}
use tiny_httpd.Fs.Error.{IoError}
use tiny_httpd.Fs.System.{FileSystem}
use tiny_httpd.Server.Params.{ServerParams}
use tiny_httpd.Startup.ContentRoot.{StartupError, bind_failed, prepare_content_root}

-- The two flags of the help text are left out.
pub record Config : Type 0 where
  pub listen_addr : Bytes
  pub content_root : Bytes
  pub service_name : Bytes
  pub header_read_timeout : ℕ
  pub idle_connection_timeout : ℕ
  pub graceful_close_timeout : ℕ
  pub drain_timeout : ℕ

pub data MainError (TelemetryError : Type 0) : Type 0 where
  telemetry : TelemetryError → MainError TelemetryError
  startup : StartupError → MainError TelemetryError
  server : IoError → MainError TelemetryError

pub record Runtime (W Guard Listener TelemetryError : Type 0) : Type 0 where
  pub init_telemetry : Bytes → W → Result TelemetryError Guard × W
  pub bind : Bytes → W → Result IoError Listener × W
  pub run_with_shutdown : Listener → ServerParams → W → Result IoError (Unit {0}) × W
  pub shutdown_telemetry : Guard → W → Result TelemetryError (Unit {0}) × W

unfoldable pub server_params : Config → Option Bytes → ServerParams
server_params config content_root = record {
  content_root = content_root;
  header_read_timeout = config.header_read_timeout;
  idle_connection_timeout = config.idle_connection_timeout;
  graceful_close_timeout = config.graceful_close_timeout;
  drain_timeout = config.drain_timeout;
}

-- `result.map_err(Into::into)`.
unfoldable pub main_result :
    {E : Type 0} → Result IoError (Unit {0}) → Result (MainError E) (Unit {0})
main_result (ok done) = ok done
main_result (err e) = err (server e)

module _ {W File Guard Listener E : Type 0} (fs : FileSystem W File)
    (rt : Runtime W Guard Listener E) where
  -- Each function is what follows an `await`, up to the next.
  unfoldable pub after_bind :
      Config
      → Option Bytes
      → Guard
      → Result IoError Listener
      → W
      → Result (MainError E) (Unit {0}) × W
  unfolding server_params main_result
  after_bind config root guard (err source) w =
      (err (startup (bind_failed config.listen_addr source)), w)
  after_bind config root guard (ok listener) w =
      let (result, w1) = rt.run_with_shutdown listener (server_params config root) w in
      let (flushed, w2) = rt.shutdown_telemetry guard w1 in (main_result result, w2)

  unfoldable pub after_root :
      Config → Guard → Result StartupError (Option Bytes) → W → Result (MainError E) (Unit {0}) × W
  unfolding after_bind
  after_root config guard (err e) w = (err (startup e), w)
  after_root config guard (ok root) w =
      let (bound, w') = rt.bind config.listen_addr w in after_bind config root guard bound w'

  unfoldable pub after_telemetry : Config → Result E Guard → W → Result (MainError E) (Unit {0}) × W
  unfolding after_root prepare_content_root
  after_telemetry config (err e) w = (err (telemetry e), w)
  after_telemetry config (ok guard) w =
      let (prepared, w') = prepare_content_root fs config.content_root w in
      after_root config guard prepared w'

  unfoldable pub main : Config → W → Result (MainError E) (Unit {0}) × W
  unfolding after_telemetry
  main config w =
      let (started, w') = rt.init_telemetry config.service_name w in
      after_telemetry config started w'
