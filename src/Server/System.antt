-- ===== src/Server/System.antt =====
-- src/server/accept.rs as one system: the accept loop of `run_with_shutdown`, the tasks that it
-- spawns, each in the loop of `serve_connection`, and the watch channel between them.
pub mod Closing
pub mod Phases
pub mod Graceful
pub mod Members
pub mod Runs
pub mod Prompt
pub mod Alone
pub mod Returns
pub mod Spec
pub mod Stages
pub mod Refines
use tiny_httpd.Base.{
  ℕ, ◌+◌, ◌≤◌, ◌≡◌, Bool, true, false, Option, none, some, List, [], ◌∷◌, ◌++◌, All, Result, ok,
  err,
}
use tiny_httpd.Server.Params.{ServerParams}
use tiny_httpd.Server.Connection as Conn
use tiny_httpd.Server.Connection.{Connection, accept_connection, on_event, continues, broke}
use tiny_httpd.Server.Accept.{
  Phase, accepting, draining, returned, Event, shutdown_signal, window_elapsed, accepted, joined,
  drain_elapsed, start, server_event,
}

-- A task in `serve_connection`.
pub record Link : Type 0 where
  pub task : ℕ
  pub connection : Connection

-- The accept loop or the drain, the tasks that run, those that have ended and are not joined, and
-- when `true` was sent on the watch channel.
pub record System : Type 0 where
  pub phase : Phase
  pub links : List Link
  pub ended : List ℕ
  pub broadcast : Option ℕ

abbrev pub initial : ServerParams → System
initial params = record { phase = start params; links = []; ended = []; broadcast = none }

-- The number of the next task.
abbrev pub next_of : Phase → ℕ
next_of (accepting a) = a.next_task
next_of _ = 0

abbrev pub is_aborted : Phase → Bool
is_aborted (draining d) = d.aborted
is_aborted _ = false

abbrev pub new_link : ServerParams → ℕ → Phase → Link
new_link params now p = record { task = next_of p; connection = accept_connection params now }

-- The channel carries one value, `true`, and its sender lives as long as the accept loop.
abbrev pub IsHeard : Option ℕ → Conn.Event → Type 0
IsHeard none (Conn.shutdown_changed r) = ⊥
IsHeard (some b) (Conn.shutdown_changed (ok requested)) = requested ≡ true
IsHeard (some b) (Conn.shutdown_changed (err u)) = ⊥
IsHeard broadcast e = Unit

-- The events of the accept loop that concern no task and send nothing.
abbrev pub IsQuiet : Event → Type 0
IsQuiet (shutdown_signal r) = Unit
IsQuiet (accepted (err u)) = Unit
IsQuiet drain_elapsed = Unit
IsQuiet _ = ⊥

module _ (params : ServerParams) (now : ℕ) where
  pub data Step (s : System) : System → Type 0 where
    accepts :
        (p : Phase)
        → server_event params now s.phase (accepted (ok tt)) ≡ some p
        → Step s (record s { phase = p; links = new_link params now s.phase ∷ s.links })
    quiet :
        (e : Event) (p : Phase)
        → IsQuiet e
        → server_event params now s.phase e ≡ some p
        → Step s (record s { phase = p })
    broadcasts :
        (p : Phase)
        → server_event params now s.phase window_elapsed ≡ some p
        → Step s (record s { phase = p; broadcast = some now })
    joins :
        (before after : List ℕ) (t : ℕ) (p : Phase)
        → s.ended ≡ before ++ t ∷ after
        → server_event params now s.phase (joined t) ≡ some p
        → Step s (record s { phase = p; ended = before ++ after })
    moves :
        (before after : List Link) (l : Link) (e : Conn.Event) (c : Connection)
        → s.links ≡ before ++ l ∷ after
        → IsHeard s.broadcast e
        → on_event params now l.connection e ≡ some (continues c)
        → Step s (record s { links = before ++ record l { connection = c } ∷ after })
    ends :
        (before after : List Link) (l : Link) (e : Conn.Event)
        → s.links ≡ before ++ l ∷ after
        → IsHeard s.broadcast e
        → on_event params now l.connection e ≡ some broke
        → Step s (record s { links = before ++ after; ended = l.task ∷ s.ended })
    cancelled :
        (before after : List Link) (l : Link)
        → s.links ≡ before ++ l ∷ after
        → is_aborted s.phase ≡ true
        → Step s (record s { links = before ++ after; ended = l.task ∷ s.ended })

-- A task is told of the shutdown within `delay`, if it is not closing already.
abbrev pub IsTold : ℕ → ℕ → Option ℕ → Connection → Type 0
IsTold delay now none c = Unit
IsTold delay now (some b) c = c.shutting_down ≡ false → now ≤ b + delay

-- No timer of a connection is late, and no notice.
abbrev pub IsPrompt : ℕ → ℕ → Option ℕ → Link → Type 0
IsPrompt delay now broadcast l =
    (now ≤ l.connection.deadline) × IsTold delay now broadcast l.connection

pub data Reach (params : ServerParams) (delay : ℕ) : ℕ → System → Type 0 where
  begun : (now : ℕ) → Reach params delay now (initial params)
  later :
      {now : ℕ} {s : System} (time : ℕ) {s' : System}
      → Reach params delay now s
      → now ≤ time
      → All (IsPrompt delay time s.broadcast) s.links
      → Step params time s s'
      → Reach params delay time s'
