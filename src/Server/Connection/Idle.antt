-- ===== src/Server/Connection/Idle.antt =====
-- `serve_connection` of src/server/accept.rs with the stream of src/server/activity_io.rs: the
-- `Notify` that both hold is the number of its signals, and how many of them the loop has heard.
use tiny_httpd.Base.{
  ℕ, suc, ◌+◌, ◌≤◌, ◌<◌, ◌≡◌, ◌⊎◌, refl, leb, false, Bool-cases, some, if◌then◌else◌, ok, err,
  arith, inl, inr,
}
use tiny_httpd.Server.Params.{ServerParams}
use tiny_httpd.Server.ActivityIo.{Stream, ActivityIo, wrap}
use tiny_httpd.Server.ActivityIo.Transparent.{Op, call, moved, call-wrap}
use tiny_httpd.Server.Connection.{
  Connection, Event, finished, deadline_elapsed, shutdown_changed, activity, Flow, continues,
  accept_connection, begin_graceful, on_event,
}

pub record Wired (T : Type 0) : Type 0 where
  pub stream : ActivityIo T
  pub heard : ℕ
  pub connection : Connection

module _ {T : Type 0} (io : Stream T) (params : ServerParams) where
  -- What stands in front of the loop.
  unfoldable pub open_connection : ℕ → T → Wired T
  unfolding accept_connection
  open_connection now t = record {
    stream = record { inner = t; signals = 0 };
    heard = 0;
    connection = accept_connection params now;
  }

  -- `hyper` calls the stream.
  unfoldable pub poll_stream : Op → Wired T → Wired T
  unfolding call wrap
  poll_stream op s = record s { stream = (call (wrap io) op s.stream).1 }

  -- The loop hears all the signals at once, since `Notify` keeps one permit at most.
  abbrev pub hear : Connection → Wired T → Wired T
  hear c s = record s { heard = s.stream.signals; connection = c }

  abbrev pub IsHeard : Wired T → Type 0
  IsHeard s = s.heard ≡ s.stream.signals

  -- When bytes were moved last.
  abbrev pub moved_after : Op → Wired T → ℕ → ℕ → ℕ
  moved_after op s time last = if moved (call io op s.stream.inner).0 then time else last

  abbrev pub IsActivity : Event → Type 0
  IsActivity activity = Unit
  IsActivity _ = ⊥

  -- A signal that is not heard keeps a connection that is open from waiting longer than `delay`.
  abbrev pub IsPrompt : ℕ → ℕ → ℕ → Wired T → Type 0
  IsPrompt delay time last s =
      s.heard < s.stream.signals → s.connection.shutting_down ≡ false → time ≤ last + delay

  -- Runs: when bytes were moved last, and the time of the last step. No step is later than the
  -- deadline.
  pub data Reach (delay start : ℕ) : ℕ → ℕ → Wired T → Type 0 where
    opened : (t : T) → Reach delay start start start (open_connection start t)
    polls :
        {last now : ℕ} {s : Wired T} (time : ℕ) (op : Op)
        → Reach delay start last now s
        → now ≤ time
        → time ≤ s.connection.deadline
        → IsPrompt delay time last s
        → Reach delay start (moved_after op s time last) time (poll_stream op s)
    hears :
        {last now : ℕ} {s : Wired T} (time : ℕ) {c : Connection}
        → Reach delay start last now s
        → now ≤ time
        → time ≤ s.connection.deadline
        → IsPrompt delay time last s
        → s.heard < s.stream.signals
        → on_event params time s.connection activity ≡ some (continues c)
        → Reach delay start last time (hear c s)
    rounds :
        {last now : ℕ} {s : Wired T} (time : ℕ) (e : Event) {c : Connection}
        → Reach delay start last now s
        → now ≤ time
        → time ≤ s.connection.deadline
        → IsPrompt delay time last s
        → (IsActivity e → ⊥)
        → on_event params time s.connection e ≡ some (continues c)
        → Reach delay start last time (record s { connection = c })

  record Inv (delay last now : ℕ) (s : Wired T) : Type 0 where
    heard_le : s.heard ≤ s.stream.signals
    past : last ≤ now
    due : now ≤ s.connection.deadline
    no_later :
        s.connection.shutting_down ≡ false
        → s.connection.deadline ≤ last + delay + params.idle_connection_timeout
    no_sooner :
        s.connection.shutting_down ≡ false
        → IsHeard s
        → last + params.idle_connection_timeout ≤ s.connection.deadline

  signals-poll :
      (op : Op) (s : Wired T)
      → (poll_stream op s).stream.signals
        ≡ (if moved (call io op s.stream.inner).0 then suc s.stream.signals else s.stream.signals)
  unfolding poll_stream
  signals-poll op s = rw (call-wrap io op s.stream.inner s.stream.signals) refl

  polls-Inv :
      (delay last now time : ℕ) (op : Op) (s : Wired T)
      → Inv delay last now s
      → now ≤ time
      → time ≤ s.connection.deadline
      → Inv delay (moved_after op s time last) time (poll_stream op s)
  unfolding poll_stream
  polls-Inv delay last now time op s i order due =
      let count = signals-poll op s in ground (arith, i, count)

  hears-Inv :
      (delay last now time : ℕ) (s : Wired T) (c : Connection)
      → Inv delay last now s
      → now ≤ time
      → time ≤ s.connection.deadline
      → IsPrompt delay time last s
      → s.heard < s.stream.signals
      → on_event params time s.connection activity ≡ some (continues c)
      → Inv delay last time (hear c s)
  unfolding on_event
  hears-Inv delay last now time s c i order due prompt fresh h = ground (arith, i, prompt)

  rounds-Inv :
      (delay last now time : ℕ) (s : Wired T) (e : Event) (c : Connection)
      → Inv delay last now s
      → now ≤ time
      → time ≤ s.connection.deadline
      → (IsActivity e → ⊥)
      → on_event params time s.connection e ≡ some (continues c)
      → Inv delay last time (record s { connection = c })
  unfolding on_event begin_graceful
  rounds-Inv delay last now time s (finished b) c i order due other h = ground (arith, i)
  rounds-Inv delay last now time s deadline_elapsed c i order due other h = ground (arith, i)
  rounds-Inv delay last now time s (shutdown_changed (ok b)) c i order due other h =
      ground (arith, i)
  rounds-Inv delay last now time s (shutdown_changed (err u)) c i order due other h =
      ground (arith, i)
  rounds-Inv delay last now time s activity c i order due other h = elim (other tt) [ ]

  Reach-Inv :
      {delay start last now : ℕ} {s : Wired T} → Reach delay start last now s → Inv delay last now s
  unfolding open_connection accept_connection
  Reach-Inv {start = start} (opened t) = ground arith
  Reach-Inv (polls {s = s} time op r order due prompt) =
      polls-Inv _ _ _ time op s (Reach-Inv r) order due
  Reach-Inv (hears {s = s} time {c = c} r order due prompt fresh h) =
      hears-Inv _ _ _ time s c (Reach-Inv r) order due prompt fresh h
  Reach-Inv (rounds {s = s} time e {c = c} r order due prompt other h) =
      rounds-Inv _ _ _ time s e c (Reach-Inv r) order due other h

  -- An open connection waits for as long as its peer moves bytes, and not much longer: over every run
  -- of its loop with its stream, no step is later than the idle timeout, with the delay until a signal
  -- is heard, after bytes moved last, and from then on the timer starts the graceful shutdown.
  -- It starts none sooner than the idle timeout after bytes moved last, unless they moved within that
  -- delay before it and their signal is not heard yet. Here no step is later than the deadline that it
  -- waits under.
  pub idle_by_bytes :
      {delay start last now : ℕ} {s : Wired T}
      → Reach delay start last now s
      → s.connection.shutting_down ≡ false
      → (now ≤ last + delay + params.idle_connection_timeout)
        × ((later : ℕ)
            → last + delay + params.idle_connection_timeout ≤ later
            → on_event params later s.connection deadline_elapsed
              ≡ some (continues (begin_graceful params later s.connection)))
        × ((later : ℕ) (f : Flow)
            → IsPrompt delay later last s
            → on_event params later s.connection deadline_elapsed ≡ some f
            → (last + params.idle_connection_timeout ≤ later)
              ⊎ ((s.heard < s.stream.signals) × (later ≤ last + delay)))
  unfolding on_event
  idle_by_bytes {delay} {last = last} {s = s} r is_open =
      let i = Reach-Inv r in
      let no_later = i.no_later is_open in
      (
        omega (arith, i.due, no_later),
        (λ later over. ground (arith, is_open, no_later)),
        (λ later f prompt h. elim (Bool-cases (leb s.stream.signals s.heard)) [
          | inl all_heard ↦ inl (ground (arith, i, h, all_heard))
          | inr waits ↦ inr (ground (arith, i, prompt, waits))
        ]),
      )
