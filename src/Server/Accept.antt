-- ===== src/Server/Accept.antt =====
-- src/server/accept.rs, `run_with_shutdown` and `drain_connections`: the accept loop, then the
-- drain. A connection task is a number; what it does is `Server.Connection`. Which branch or task
-- completes, and when, is given from outside. The call of `local_addr` before the loop is in Whole.
pub mod Shutdown
pub mod Tasks
pub mod Drain
pub mod Timely
pub mod AnyOrder
pub mod Whole
use tiny_httpd.Base.{
  ℕ, suc, ◌+◌, Bool, true, false, ◌||◌, Option, none, some, List, [], ◌∷◌, ◌==◌, if◌then◌else◌, leb,
  Result, ok, err,
}
use tiny_httpd.Handler.State.{AppState, new, mark_not_ready, mark_shutting_down}
use tiny_httpd.Server.Params.{ServerParams, readiness_drain_window_millis}

-- In the accept loop; `next_task` numbers the tasks.
pub record Accepting : Type 0 where
  pub state : AppState
  pub shutdown_deadline : Option ℕ
  pub connections : List ℕ
  pub next_task : ℕ

-- After `shutdown_tx.send(true)`, while `drain_connections` runs for the first time, or again
-- after `abort_all`.
pub record Draining : Type 0 where
  pub state : AppState
  pub connections : List ℕ
  pub drain_deadline : ℕ
  pub aborted : Bool

pub data Phase : Type 0 where
  accepting : Accepting → Phase
  draining : Draining → Phase
  returned : AppState → Phase

-- The branches of the loop, and in the drain a task that is joined, whatever its result, and the
-- timeout round the drain.
pub data Event : Type 0 where
  shutdown_signal : Result (Unit {0}) (Unit {0}) → Event
  window_elapsed : Event
  accepted : Result (Unit {0}) (Unit {0}) → Event
  joined : ℕ → Event
  drain_elapsed : Event

unfoldable pub start : ServerParams → Phase
unfolding new
start params = accepting (record {
  state = new params.content_root;
  shutdown_deadline = none;
  connections = [];
  next_task = 0;
})

-- `JoinSet::join_next` takes out a task that has ended, of those that the set holds.
unfoldable pub remove : ℕ → List ℕ → List ℕ
remove t [] = []
remove t (x ∷ xs) = if x == t then xs else x ∷ remove t xs

unfoldable pub holds : ℕ → List ℕ → Bool
holds t [] = false
holds t (x ∷ xs) = (x == t) || holds t xs

-- `while let Some(…) = join_next()` ends when no task is left.
unfoldable pub settle : List ℕ → Draining → Phase
settle [] d = returned d.state
settle (_ ∷ _) d = draining d

unfoldable pub drained : Draining → Phase
unfolding settle
drained d = settle d.connections d

unfoldable pub on_signal : ℕ → Accepting → Accepting
unfolding mark_not_ready mark_shutting_down
on_signal now a = record a {
  state = mark_shutting_down (mark_not_ready a.state);
  shutdown_deadline = some (now + readiness_drain_window_millis);
}

unfoldable pub on_accepted : Accepting → Accepting
on_accepted a = record a { connections = a.next_task ∷ a.connections; next_task = suc a.next_task }

-- The `break`, the broadcast and the start of the drain.
unfoldable pub stop_accepting : ServerParams → ℕ → Accepting → Phase
unfolding drained
stop_accepting params now a = drained (record {
  state = a.state;
  connections = a.connections;
  drain_deadline = now + params.drain_timeout;
  aborted = false;
})

-- The loop's branches, with their guards on `shutdown_deadline`; a timer is not early.
unfoldable pub accept_event : ServerParams → ℕ → Accepting → Event → Option Phase
unfolding on_signal on_accepted stop_accepting
accept_event params now a (shutdown_signal _) = elim a.shutdown_deadline [
  | none ↦ some (accepting (on_signal now a))
  | some _ ↦ none
]
accept_event params now a window_elapsed = elim a.shutdown_deadline [
  | none ↦ none
  | some deadline ↦ if leb deadline now then some (stop_accepting params now a) else none
]
accept_event params now a (accepted (ok _)) = some (accepting (on_accepted a))
accept_event params now a (accepted (err _)) = some (accepting a)
accept_event params now a _ = none

unfoldable pub drain_event : ℕ → Draining → Event → Option Phase
unfolding remove holds drained
drain_event now d (joined t) =
    if holds t d.connections
    then some (drained (record d { connections = remove t d.connections }))
    else none
drain_event now d drain_elapsed =
    if d.aborted
    then none
    else if leb d.drain_deadline now
    then some (draining (record d { aborted = true }))
    else none
drain_event now d _ = none

unfoldable pub server_event : ServerParams → ℕ → Phase → Event → Option Phase
unfolding accept_event drain_event
server_event params now (accepting a) e = accept_event params now a e
server_event params now (draining d) e = drain_event now d e
server_event params now (returned s) e = none
