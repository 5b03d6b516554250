-- ===== src/Metrics.antt =====
-- src/metrics.rs. The OpenTelemetry instruments are what is recorded on them, in order; a
-- duration is its nanoseconds, and the conversion to `f64` seconds is left to the exporter.
pub mod Guard
use tiny_httpd.Base.{
  ℕ, zero, suc, ◌+◌, ◌/◌, Bool, true, false, List, [], ◌∷◌, ◌++◌, ◌==◌, if◌then◌else◌, Bytes, codes,
}

pub record Attributes : Type 0 where
  pub request_method : Bytes
  pub status_class : Bytes

-- `in_flight.add(1)`, `in_flight.add(-1)`, and the instruments of `request_finished`.
pub data Measurement : Type 0 where
  in_flight_up in_flight_down : Measurement
  requests_add : Attributes → Measurement
  duration_record : ℕ → Attributes → Measurement
  response_body_size_record : ℕ → Attributes → Measurement

abbrev pub Log : Type 0
Log = List Measurement

-- `InFlightRequestGuard`; the instruments that it borrows are the log.
pub record InFlightRequestGuard : Type 0 where
  pub finished : Bool

unfoldable pub request_started : Log → InFlightRequestGuard × Log
request_started log = (record { finished = false }, log ++ in_flight_up ∷ [])

unfoldable pub finish : InFlightRequestGuard → Log → InFlightRequestGuard × Log
finish guard log =
    if guard.finished
    then (guard, log)
    else (record { finished = true }, log ++ in_flight_down ∷ [])

-- `Drop::drop`.
unfoldable pub drop_guard : InFlightRequestGuard → Log → Log
unfolding finish
drop_guard guard log = if guard.finished then log else (finish guard log).1

unfoldable pub status_class : ℕ → Bytes
status_class status =
    let hundreds = status / 100 in
    if hundreds == 1
    then codes "1xx"
    else if hundreds == 2
    then codes "2xx"
    else if hundreds == 3
    then codes "3xx"
    else if hundreds == 4
    then codes "4xx"
    else if hundreds == 5
    then codes "5xx"
    else codes "other"

unfoldable pub request_finished : Bytes → ℕ → ℕ → ℕ → Log → Log
unfolding status_class
request_finished method status elapsed response_bytes log =
    let attributes : Attributes = record {
      request_method = method;
      status_class = status_class status;
    } in
    log
    ++ requests_add attributes
      ∷ duration_record elapsed attributes
      ∷ response_body_size_record response_bytes attributes
      ∷ []
