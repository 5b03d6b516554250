-- ===== src/Handler/State.antt =====
-- src/handler/state.rs. The atomics are their values; a request loads at most one of them, so a
-- state stands for what the loads of one request see.
use tiny_httpd.Base.{Bool, true, false, Option, Bytes}

pub record AppState : Type 0 where
  pub content_root : Option Bytes
  pub ready : Bool
  pub shutting_down : Bool

-- `AppState::new`; the metrics are kept apart, as a log.
unfoldable pub new : Option Bytes → AppState
new root = record { content_root = root; ready = true; shutting_down = false }

unfoldable pub mark_not_ready : AppState → AppState
mark_not_ready s = record s { ready = false }

unfoldable pub mark_shutting_down : AppState → AppState
mark_shutting_down s = record s { shutting_down = true }
