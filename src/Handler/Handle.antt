-- ===== src/Handler/Handle.antt =====
-- src/handler/routing.rs, `handle_with_peer_addr` and `request_span`. The clock enters as the
-- elapsed nanoseconds. A request's future may be dropped while it waits in `route`; the handler is
-- cut in two there.
pub mod InFlight
pub mod Agrees
use tiny_httpd.Base.{
  ℕ, ◌/◌, ◌^◌, ◌-◌, Bool, true, false, ◌||◌, Option, none, some, if◌then◌else◌, Bytes, bytes_eq,
  ltb, [],
}
use tiny_httpd.Fs.System.{FileSystem}
use tiny_httpd.Metrics.{
  Log, InFlightRequestGuard, request_started, finish, drop_guard, request_finished, status_class,
}
use tiny_httpd.Handler.Http.{Method, method_name, Response, Toolkit}
use tiny_httpd.Handler.State.{AppState}
use tiny_httpd.Handler.Response.{ResponseOutcome}
use tiny_httpd.Handler.Routing.{livez, readyz, route}

pub data Level : Type 0 where
  debug info : Level

-- A request span, and the fields that are recorded on it later.
pub record Span : Type 0 where
  pub level : Level
  pub method : Bytes
  pub path : Bytes
  pub peer_address : Bytes

pub record Recorded : Type 0 where
  pub status_code : ℕ
  pub status_class : Bytes
  pub body_size : ℕ
  pub duration_us : ℕ

unfoldable pub request_span : Method → Bytes → Bytes → Bool → Span
unfolding method_name
request_span method path peer_addr debug_probe = record {
  level = if debug_probe then debug else info;
  method = method_name method;
  path = path;
  peer_address = peer_addr;
}

-- `unwrap_or("")` on the printed address.
abbrev pub peer_text : Option Bytes → Bytes
peer_text none = []
peer_text (some address) = address

-- `u64::try_from(elapsed.as_micros()).unwrap_or(u64::MAX)`
unfoldable pub duration_us : ℕ → ℕ
duration_us elapsed =
    let micros = elapsed / 1000 in if ltb micros (2 ^ 64) then micros else 2 ^ 64 - 1

module _ {File : Type 0} where
  unfoldable pub recorded : ResponseOutcome File → ℕ → Recorded
  unfolding duration_us status_class
  recorded outcome elapsed = record {
    status_code = outcome.response.status;
    status_class = status_class outcome.response.status;
    body_size = outcome.body_size;
    duration_us = duration_us elapsed;
  }

  -- From the answer of `route` to the end of the block, where the guard is dropped.
  unfoldable pub complete : InFlightRequestGuard → Method → ResponseOutcome File → ℕ → Log → Log
  unfolding finish request_finished drop_guard method_name
  complete guard method outcome elapsed log =
      let (guard', log') = finish guard log in
      drop_guard guard' (
        request_finished (method_name method) outcome.response.status elapsed outcome.body_size
          log')

-- The future is dropped in `route`: only the guard's `Drop` runs.
unfoldable pub abandon : InFlightRequestGuard → Log → Log
unfolding drop_guard
abandon guard log = drop_guard guard log

pub record Handled (W File : Type 0) : Type 0 where
  pub response : Response File
  pub world : W
  pub log : Log
  pub span : Span
  pub fields : Recorded

unfoldable pub handle_with_peer_addr :
    {W File : Type 0}
    → FileSystem W File
    → Toolkit File
    → Bytes
    → AppState
    → Method
    → Bytes
    → Option Bytes
    → ℕ
    → W
    → Log
    → Handled W File
unfolding request_span request_started route recorded complete bytes_eq
handle_with_peer_addr fs kit page state method path peer_addr elapsed w log =
    let span =
      request_span method path (peer_text peer_addr)
        (bytes_eq path livez || bytes_eq path readyz) in
    let (guard, started) = request_started log in
    let (outcome, w') = route fs kit page state method path w in
    record {
      response = outcome.response;
      world = w';
      log = complete guard method outcome elapsed started;
      span = span;
      fields = recorded outcome elapsed;
    }
