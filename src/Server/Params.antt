-- ===== src/Server/Params.antt =====
-- src/server/accept.rs, `ServerParams`.
use tiny_httpd.Base.{ℕ, Option, none, Bytes}

pub record ServerParams : Type 0 where
  pub content_root : Option Bytes
  pub header_read_timeout : ℕ
  pub idle_connection_timeout : ℕ
  pub graceful_close_timeout : ℕ
  pub drain_timeout : ℕ

-- `ServerParams::default`.
abbrev pub default_params : ServerParams
default_params = record {
  content_root = none;
  header_read_timeout = 30000;
  idle_connection_timeout = 60000;
  graceful_close_timeout = 5000;
  drain_timeout = 10000;
}

abbrev pub readiness_drain_window_millis : ℕ
readiness_drain_window_millis = 250
