-- ===== src/Server/Connection.antt =====
-- src/server/accept.rs, `serve_connection`: the loop over `tokio::select!`, one branch a round.
-- Which branch completes, and when, is given from outside; a branch whose guard is false is not
-- taken. The `hyper` connection appears through the calls of `graceful_shutdown`.
pub mod Deadline
pub mod Idle
pub mod Overflow
use tiny_httpd.Base.{
  ℕ, suc, ◌+◌, Bool, true, false, Option, none, some, if◌then◌else◌, ltb, Result, ok, err,
}
use tiny_httpd.Server.Params.{ServerParams}

pub record Connection : Type 0 where
  pub shutting_down : Bool
  pub deadline : ℕ
  pub graceful_calls : ℕ

-- The branches: the connection is done, with or without an error; the timer has elapsed; the watch
-- channel has changed, to a value or by being closed; bytes have moved.
pub data Event : Type 0 where
  finished : Bool → Event
  deadline_elapsed : Event
  shutdown_changed : Result (Unit {0}) Bool → Event
  activity : Event

pub data Flow : Type 0 where
  continues : Connection → Flow
  broke : Flow

-- The state in front of the loop, for a connection accepted now.
unfoldable pub accept_connection : ServerParams → ℕ → Connection
accept_connection params now = record {
  shutting_down = false;
  deadline = now + params.idle_connection_timeout;
  graceful_calls = 0;
}

-- `graceful_shutdown()`, the flag and the new deadline, as three branches have them.
unfoldable pub begin_graceful : ServerParams → ℕ → Connection → Connection
begin_graceful params now c = record {
  shutting_down = true;
  deadline = now + params.graceful_close_timeout;
  graceful_calls = suc c.graceful_calls;
}

-- One round at the time `now`; `none` if the branch is disabled, or if the timer has not elapsed.
unfoldable pub on_event : ServerParams → ℕ → Connection → Event → Option Flow
unfolding begin_graceful
on_event params now c (finished _) = some broke
on_event params now c deadline_elapsed =
    if ltb now c.deadline
    then none
    else if c.shutting_down
    then some broke
    else some (continues (begin_graceful params now c))
on_event params now c (shutdown_changed (ok requested)) =
    if c.shutting_down
    then none
    else if requested
    then some (continues (begin_graceful params now c))
    else some (continues c)
on_event params now c (shutdown_changed (err _)) =
    if c.shutting_down then none else some (continues (begin_graceful params now c))
on_event params now c activity =
    if c.shutting_down
    then none
    else some (continues (record c { deadline = now + params.idle_connection_timeout }))
