-- ===== src/Tests/Idle.antt =====
-- A connection of src/server/accept.rs with a concrete stream.
use tiny_httpd.Base.{ℕ, ◌<◌, ◌≤◌, ◌≡◌, ◌⊎◌, refl, false, some, codes, arith}
use tiny_httpd.Server.Params.{default_params}
use tiny_httpd.Server.ActivityIo.{wrap}
use tiny_httpd.Server.ActivityIo.Transparent.{read, write, flush, call, moved}
use tiny_httpd.Server.Connection.{
  Flow, deadline_elapsed, continues, accept_connection, begin_graceful, on_event,
}
use tiny_httpd.Server.Connection.Idle.{
  Wired, open_connection, poll_stream, IsPrompt, Reach, opened, polls, hears, idle_by_bytes,
}
use tiny_httpd.Tests.Shutdown.{pipe}

-- A request has come in at one second, and was heard; the answer at three is not heard yet.
abbrev busy : Wired ℕ
busy = record {
  stream = record { inner = 1; signals = 2 };
  heard = 1;
  connection = record { shutting_down = false; deadline = 61005; graceful_calls = 0 };
}

busy_run : Reach pipe default_params 100 0 3000 3010 busy
unfolding open_connection poll_stream accept_connection on_event call wrap moved
busy_run =
    polls 3010 flush
      (polls 3000 (write (codes "ok"))
        (polls 2000 (read 3)
          (hears 1005
            (polls 1000 (read 0) (opened 0) (omega arith) (omega arith) (λ h o. omega (arith, h)))
            (omega arith) (omega arith) (λ h o. omega arith) (omega arith) refl)
          (omega arith) (omega arith) (λ h o. omega (arith, h)))
        (omega arith) (omega arith) (λ h o. omega (arith, h)))
      (omega arith) (omega arith) (λ h o. omega arith)

idle_by_bytes_example :
    (3010 ≤ 63100)
    × ((later : ℕ)
        → 63100 ≤ later
        → on_event default_params later busy.connection deadline_elapsed
          ≡ some (continues (begin_graceful default_params later busy.connection)))
    × ((later : ℕ) (f : Flow)
        → IsPrompt pipe default_params 100 later 3000 busy
        → on_event default_params later busy.connection deadline_elapsed ≡ some f
        → (63000 ≤ later) ⊎ ((1 < 2) × (later ≤ 3100)))
idle_by_bytes_example = idle_by_bytes pipe default_params busy_run refl
