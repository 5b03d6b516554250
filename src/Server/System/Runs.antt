-- ===== src/Server/System/Runs.antt =====
-- The parts of the system of src/server/accept.rs, each seen alone.
use tiny_httpd.Base.{
  ℕ, ◌≤◌, ◌≡◌, Option, none, some, List, ◌∷◌, ◌++◌, All, All-imp, All-middle, All-insert, subst,
  arith,
}
use tiny_httpd.Server.Params.{ServerParams}
use tiny_httpd.Server.Connection as Conn
use tiny_httpd.Server.Connection.{Connection, on_event, continues}
use tiny_httpd.Server.Connection.Deadline as Deadline
use tiny_httpd.Server.Accept.{Phase, Event, server_event}
use tiny_httpd.Server.Accept.Shutdown as Shutdown
use tiny_httpd.Server.Accept.Shutdown.{phase_state, marked, shutdown_ordered, signalled_after}
use tiny_httpd.Server.System.{
  Link, System, Step, accepts, quiet, broadcasts, joins, moves, ends, cancelled, IsPrompt, Reach,
  begun, later,
}

module _ (params : ServerParams) where
  -- A run of the accept loop and the drain, up to an event that is not later than `now`.
  abbrev pub PhaseRun : ℕ → Phase → Type 0
  PhaseRun now p =
      (at : ℕ) × (signalled : Option ℕ) × Shutdown.Reach params at signalled p × (at ≤ now)

  -- A run of a connection, likewise.
  abbrev pub LinkRun : ℕ → Link → Type 0
  LinkRun now l =
      (opened_at last closed at : ℕ) × Deadline.Reach params opened_at last closed at l.connection
      × (at ≤ now)

  abbrev pub Runs : ℕ → System → Type 0
  Runs now s = PhaseRun now s.phase × All (LinkRun now) s.links

  module _ (now time : ℕ) (order : now ≤ time) where
    wait_phase : (p : Phase) → PhaseRun now p → PhaseRun time p
    wait_phase p (at, signalled, r, by) = (at, signalled, r, omega (arith, by, order))

    step_phase :
        (p p' : Phase) (e : Event)
        → server_event params time p e ≡ some p'
        → PhaseRun now p
        → PhaseRun time p'
    step_phase p p' e h (at, signalled, r, by) = (
      time,
      signalled_after e time signalled,
      Shutdown.event time e r (omega (arith, by, order)) h,
      omega arith,
    )

    wait_links : (ls : List Link) → All (LinkRun now) ls → All (LinkRun time) ls
    wait_links ls =
        All-imp (LinkRun now) (LinkRun time) ls
          (λ l (o, last, closed, at, r, by). (o, last, closed, at, r, omega (arith, by, order)))

    step_link :
        (l : Link) (e : Conn.Event) (c : Connection)
        → time ≤ l.connection.deadline
        → on_event params time l.connection e ≡ some (continues c)
        → LinkRun now l
        → LinkRun time (record l { connection = c })
    step_link l e c due h (o, last, closed, at, r, by) = (
      o,
      Deadline.last_after e time last,
      Deadline.closed_after l.connection time closed,
      time,
      Deadline.round time e r (omega (arith, by, order)) due h,
      omega arith,
    )

    fewer :
        (before after : List Link) (l : Link)
        → All (LinkRun now) (before ++ l ∷ after)
        → All (LinkRun time) (before ++ after)
    fewer before after l h =
        wait_links (before ++ after) (All-middle (LinkRun now) before l after h).1

    module _ (delay : ℕ) where
      Step-Runs :
          {s s' : System}
          → All (IsPrompt delay time s.broadcast) s.links
          → Step params time s s'
          → Runs now s
          → Runs time s'
      Step-Runs {s} prompt (accepts p h) (phase, links) = (
        step_phase s.phase p _ h phase,
        ((time, time, time, time, Deadline.opened, omega arith), wait_links s.links links),
      )
      Step-Runs {s} prompt (quiet e p q h) (phase, links) =
          (step_phase s.phase p e h phase, wait_links s.links links)
      Step-Runs {s} prompt (broadcasts p h) (phase, links) =
          (step_phase s.phase p _ h phase, wait_links s.links links)
      Step-Runs {s} prompt (joins before after t p e h) (phase, links) =
          (step_phase s.phase p _ h phase, wait_links s.links links)
      Step-Runs {s} prompt (moves before after l e c same heard h) (phase, links) =
          let (own, others) =
            All-middle (LinkRun now) before l after (subst (All (LinkRun now)) same links) in
          let (due, told) =
            (All-middle _ before l after
              (subst (All (IsPrompt delay time s.broadcast)) same prompt)).0 in
          (
            wait_phase s.phase phase,
            All-insert (LinkRun time) before (record l { connection = c }) after
                (step_link l e c due h own) (wait_links (before ++ after) others),
          )
      Step-Runs {s} prompt (ends before after l e same heard h) (phase, links) =
          (wait_phase s.phase phase, fewer before after l (subst (All (LinkRun now)) same links))
      Step-Runs {s} prompt (cancelled before after l same h) (phase, links) =
          (wait_phase s.phase phase, fewer before after l (subst (All (LinkRun now)) same links))

-- The system is made of its parts: the phase is that of a run of the accept loop and the drain, and
-- each task that runs is in a run of the connection loop, so what holds of these runs alone holds in
-- the system.
pub Reach-Runs :
    {params : ServerParams} {delay now : ℕ} {s : System}
    → Reach params delay now s
    → Runs params now s
Reach-Runs (begun now) = ((now, none, Shutdown.begun now, omega arith), tt)
Reach-Runs {params} {delay} (later {now} time r order prompt st) =
    Step-Runs params now time order delay prompt st (Reach-Runs r)
