-- ===== src/Server/Connection/Deadline.antt =====
-- How long a connection of src/server/accept.rs lives.
use tiny_httpd.Base.{
  true, ℕ, ◌+◌, ◌≤◌, ◌≡◌, ◌⊎◌, refl, none, some, if◌then◌else◌, ok, err, arith, inl, inr,
}
use tiny_httpd.Server.Params.{ServerParams}
use tiny_httpd.Server.Connection.{
  Flow, Connection, Event, finished, deadline_elapsed, shutdown_changed, activity, continues, broke,
  accept_connection, begin_graceful, on_event,
}

-- When bytes moved last: `activity` is the only event that says so.
abbrev pub last_after : Event → ℕ → ℕ → ℕ
last_after activity now last = now
last_after _ now last = last

-- When the connection began to close: at the round that raised the flag.
abbrev pub closed_after : Connection → ℕ → ℕ → ℕ
closed_after c now before = if c.shutting_down then before else now

-- The rounds of a connection accepted at `start`: when bytes moved last, when it began to close
-- (while it is open, the time of the round), and the time of the round. No round is later than the
-- deadline: the timer is one of the branches, and it completes when it is due.
pub data Reach (params : ServerParams) (start : ℕ) : ℕ → ℕ → ℕ → Connection → Type 0 where
  opened : Reach params start start start start (accept_connection params start)
  round :
      {last closed now : ℕ} {c : Connection} (later : ℕ) (e : Event) {c' : Connection}
      → Reach params start last closed now c
      → now ≤ later
      → later ≤ c.deadline
      → on_event params later c e ≡ some (continues c')
      → Reach params start (last_after e later last) (closed_after c later closed) later c'

-- What holds in front of each round.
pub record Inv (params : ServerParams) (last closed now : ℕ) (c : Connection) : Type 0 where
  pub due : now ≤ c.deadline
  pub began : closed ≤ last + params.idle_connection_timeout
  pub deadline_is : c.deadline ≡ (
      if c.shutting_down
      then closed + params.graceful_close_timeout
      else last + params.idle_connection_timeout)
  pub once : c.graceful_calls ≡ (if c.shutting_down then 1 else 0)

round-Inv :
    (params : ServerParams) (last closed now later : ℕ) (c c' : Connection) (e : Event)
    → Inv params last closed now c
    → now ≤ later
    → later ≤ c.deadline
    → on_event params later c e ≡ some (continues c')
    → Inv params (last_after e later last) (closed_after c later closed) later c'
unfolding on_event
round-Inv params last closed now later c c' (finished b) i o d h = ground arith
round-Inv params last closed now later c c' deadline_elapsed i o d h = ground arith
round-Inv params last closed now later c c' (shutdown_changed (ok b)) i o d h = ground arith
round-Inv params last closed now later c c' (shutdown_changed (err u)) i o d h = ground arith
round-Inv params last closed now later c c' activity i o d h = ground arith

Reach-Inv :
    {params : ServerParams} {start last closed now : ℕ} {c : Connection}
    → Reach params start last closed now c
    → Inv params last closed now c
unfolding accept_connection
Reach-Inv opened = ground arith
Reach-Inv
      (round {last = last} {closed = closed} {now = now} {c = c} later e {c' = c'} r order due h) =
    round-Inv _ last closed now later c c' e (Reach-Inv r) order due h

closed_by :
    {params : ServerParams} {start last closed now : ℕ} {c : Connection}
    → Reach params start last closed now c
    → closed ≤ now
closed_by opened = omega arith
closed_by (round {closed = closed} {now = now} {c = c} later e r order due h) =
    ground (arith, closed_by r)

-- The timer elapses at the deadline, and no sooner.
pub at_deadline :
    (params : ServerParams) (c : Connection)
    → c.shutting_down ≡ true
    → on_event params c.deadline c deadline_elapsed ≡ some broke
unfolding on_event
at_deadline params c closing = ground arith

not_early :
    (params : ServerParams) (later : ℕ) (c : Connection) (f : Flow)
    → on_event params later c deadline_elapsed ≡ some f
    → c.deadline ≤ later
unfolding on_event
not_early params later c f h = ground arith

-- A closing connection is over within the graceful-close timeout from any round on.
pub closing_soon :
    {params : ServerParams} {start last closed now : ℕ} {c : Connection}
    → Reach params start last closed now c
    → c.shutting_down ≡ true
    → c.deadline ≤ now + params.graceful_close_timeout
closing_soon {c = c} r closing =
    let by = closed_by r in let same = (Reach-Inv r).deadline_is in ground (arith, by, same)

-- In front of each round the deadline of an open connection is the idle timeout after its last
-- movement of bytes, or its acceptance; that of a closing one is the graceful-close timeout after it
-- began to close, whatever happened since, and it began within the idle timeout. So no round is
-- later than both timeouts after the last movement of bytes, and none sooner than the deadline closes
-- the connection by its timer. Graceful shutdown is asked of `hyper` once, when the connection begins
-- to close. Here a round is never later than the deadline that it waits under.
pub connection_bounded :
    {params : ServerParams} {start last closed now : ℕ} {c : Connection}
    → Reach params start last closed now c
    → (now ≤ last + params.idle_connection_timeout + params.graceful_close_timeout)
      × (closed ≤ last + params.idle_connection_timeout)
      × (c.deadline ≡ (
          if c.shutting_down
          then closed + params.graceful_close_timeout
          else last + params.idle_connection_timeout))
      × (c.graceful_calls ≡ (if c.shutting_down then 1 else 0))
      × ((later : ℕ) (f : Flow)
          → on_event params later c deadline_elapsed ≡ some f
          → c.deadline ≤ later)
connection_bounded {params} {c = c} r =
    let i = Reach-Inv r in
    (
      ground (arith, i.due, i.began, i.deadline_is),
      i.began,
      i.deadline_is,
      i.once,
      λ later f. not_early params later c f,
    )

-- A connection that is closing takes no branch that goes on: activity and shutdown notices are
-- ignored, so its deadline stands, and when the deadline elapses the loop ends. One that is open
-- begins to close when its deadline elapses.
pub deadline_ends :
    (params : ServerParams) (now later : ℕ) (c : Connection)
    → c.deadline ≤ now
    → now + params.graceful_close_timeout ≤ later
    → (c' : Connection) × ((on_event params now c deadline_elapsed ≡ some broke)
        ⊎ ((on_event params now c deadline_elapsed ≡ some (continues c'))
            × (c'.deadline ≡ now + params.graceful_close_timeout)))
      × ((e : Event)
          → (on_event params later c' e ≡ none) ⊎ (on_event params later c' e ≡ some broke))
      × (on_event params later c' deadline_elapsed ≡ some broke)
unfolding on_event begin_graceful
deadline_ends params now later c due over =
    (begin_graceful params now c, ground arith, closed, ground arith)
  where
    closed :
        (e : Event)
        → (on_event params later (begin_graceful params now c) e ≡ none)
          ⊎ (on_event params later (begin_graceful params now c) e ≡ some broke)
    closed (finished b) = inr refl
    closed deadline_elapsed = inr (ground arith)
    closed (shutdown_changed (ok b)) = inl refl
    closed (shutdown_changed (err u)) = inl refl
    closed activity = inl refl
