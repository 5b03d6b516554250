-- ===== src/Tests/Shutdown.antt =====
-- src/server/ at concrete runs.
use tiny_httpd.Base.{
  ℕ, ◌+◌, ◌==◌, length, ◌≤◌, ◌≡◌, refl, true, false, some, List, [], ◌∷◌, if◌then◌else◌, codes, ok,
  arith,
}
use tiny_httpd.Server.Params.{default_params}
use tiny_httpd.Server.ActivityIo.{pending, ready, Stream, wrap}
use tiny_httpd.Server.ActivityIo.Mock.{mock, with_read_data}
use tiny_httpd.Server.ActivityIo.Transparent.{
  read, write, write_vectored, flush, did_read, did_write, did_control, calls, calls-wrap,
  transfers, moved,
}
use tiny_httpd.Server.Connection as Conn
use tiny_httpd.Server.Connection.Deadline as Deadline
use tiny_httpd.Server.Accept.{
  Draining, returned, Event, shutdown_signal, window_elapsed, accepted, joined, start, server_event,
}
use tiny_httpd.Server.Accept.Shutdown.{Reach, begun, event, marked, shutdown_ordered}
use tiny_httpd.Handler.State.{AppState}
use tiny_httpd.Server.Accept.Timely as Timely
use tiny_httpd.Server.Accept.Tasks.{run, Accounts, spawned, taken_out, tasks_conserved}

-- A stream that gives three bytes at the first read, takes writes whole and counts them.
abbrev pub pipe : Stream ℕ
pipe = record {
  poll_read = λ n t. if t == 0 then (ready (ok tt), n + 3, 1) else (pending, n, t);
  poll_write = λ bytes t. (ready (ok (length bytes)), t);
  poll_flush = λ t. (ready (ok tt), t);
  poll_shutdown = λ t. (ready (ok tt), t);
  poll_write_vectored = λ bs t. (ready (ok 0), t);
  is_write_vectored = λ t. false;
}

-- `MockIo` with a buffer of five bytes, as in the repository's tests.
calls-wrap_example :
    calls
      (wrap (mock 5))
      (read 0 ∷ write (codes "world") ∷ flush ∷ [])
      (record { inner = with_read_data (codes "hello"); signals = 0 })
    ≡ (
      did_read 0 5 (ready (ok tt)) ∷ did_write (ready (ok 5)) ∷ did_control (ready (ok tt)) ∷ [],
      record {
        inner = record { read_data = codes "hello"; read_offset = 5; write_data = codes "world" };
        signals = 2;
      },
    )
unfolding calls wrap transfers moved mock with_read_data
calls-wrap_example =
    calls-wrap (mock 5) (read 0 ∷ write (codes "world") ∷ flush ∷ [])
      (with_read_data (codes "hello")) 0

silent_eof :
    (calls
      (wrap (mock 8))
      (read 0 ∷ [])
      (record { inner = with_read_data []; signals = 0 })).1.signals
    ≡ 0
unfolding calls wrap mock with_read_data
silent_eof = refl

vectored :
    (calls
      (wrap (mock 8))
      (write_vectored (codes "ab" ∷ codes "cd" ∷ []) ∷ [])
      (record { inner = with_read_data []; signals = 0 })).1
    ≡ record {
      inner = record { read_data = []; read_offset = 0; write_data = codes "ab" };
      signals = 1;
    }
unfolding calls wrap mock with_read_data
vectored = refl

-- Two connections are accepted, the second after the signal; each is joined in the drain.
abbrev whole_run : List (ℕ × Event)
whole_run =
    (10, accepted (ok tt))
    ∷ (1000, shutdown_signal (ok tt))
    ∷ (1100, accepted (ok tt))
    ∷ (1250, window_elapsed)
    ∷ (1300, joined 0)
    ∷ (2000, joined 1)
    ∷ []

tasks_conserved_example : Accounts (returned (marked default_params)) 2 2
unfolding run start spawned taken_out
tasks_conserved_example =
    tasks_conserved default_params whole_run (returned (marked default_params)) refl

-- Bytes move after a second, then the shutdown is broadcast.
abbrev moved_once : Conn.Connection
moved_once = record { shutting_down = false; deadline = 61000; graceful_calls = 0 }

abbrev closing : Conn.Connection
closing = record { shutting_down = true; deadline = 7000; graceful_calls = 1 }

closed_after_broadcast : Deadline.Reach default_params 0 1000 2000 2000 closing
unfolding Conn.on_event Conn.begin_graceful Conn.accept_connection
closed_after_broadcast =
    Deadline.round 2000 (Conn.shutdown_changed (ok true))
      (Deadline.round 1000 Conn.activity {c' = moved_once} Deadline.opened (omega arith)
        (omega arith) refl)
      (omega arith) (omega arith) refl

connection_bounded_example :
    (2000 ≤ 66000)
    × (2000 ≤ 61000)
    × (closing.deadline ≡ 7000)
    × (closing.graceful_calls ≡ 1)
    × ((later : ℕ) (f : Conn.Flow)
        → Conn.on_event default_params later closing Conn.deadline_elapsed ≡ some f
        → closing.deadline ≤ later)
connection_bounded_example = Deadline.connection_bounded closed_after_broadcast

-- The signal a second after the start, and the end of the drain window: no connection was accepted.
signalled_run : Reach default_params 1250 (some 1000) (returned (marked default_params))
unfolding start server_event
signalled_run =
    event 1250 window_elapsed (event 1000 (shutdown_signal (ok tt)) (begun 0) (omega arith) refl)
      (omega arith) refl

shutdown_ordered_example : (marked default_params ≡ marked default_params) × (1000 + 250 ≤ 1250)
shutdown_ordered_example = shutdown_ordered signalled_run

-- Two tasks are left when the drain begins; one is joined, and the timeout elapses.
abbrev two_left : Draining
two_left = record {
  state = marked default_params;
  connections = 1 ∷ 0 ∷ [];
  drain_deadline = 11250;
  aborted = false;
}

quick_run : Timely.Timely default_params 20 1250 (some 1000) (returned (marked default_params))
unfolding start server_event
quick_run =
    Timely.event 1250 window_elapsed
      (Timely.event 1000 (shutdown_signal (ok tt)) (Timely.begun 0) (omega arith) tt refl)
      (omega arith) (omega arith) refl

shutdown_bounded_example :
    (1250 ≤ 1000 + 250 + 10000 + 20)
    × ((s : AppState) → returned (marked default_params) ≡ returned s → 1000 + 250 ≤ 1250)
shutdown_bounded_example = Timely.shutdown_bounded quick_run
