-- ===== src/Server/Accept/Timely.antt =====
-- How long the shutdown of src/server/accept.rs takes.
use tiny_httpd.Base.{
  ℕ, ◌+◌, ◌≤◌, ◌≡◌, refl, Bool-cases, Option, none, some, List, [], ◌∷◌, if◌then◌else◌, leb, ok,
  err, arith, subst, inl, inr,
}
use tiny_httpd.Handler.State.{AppState}
use tiny_httpd.Server.Params.{ServerParams, readiness_drain_window_millis}
use tiny_httpd.Server.Accept.{
  Accepting, Draining, Phase, accepting, draining, returned, Event, shutdown_signal, window_elapsed,
  accepted, joined, drain_elapsed, start, remove, holds, settle, drained, on_signal, on_accepted,
  stop_accepting, accept_event, drain_event, server_event,
}
use tiny_httpd.Server.Accept.Shutdown.{Reach, Inv, signalled_after, shutdown_ordered}

-- The timer that a phase waits on. Tasks that were aborted end within `grace`.
abbrev pub due : ℕ → Phase → Option ℕ
due grace (accepting a) = a.shutdown_deadline
due grace (draining d) = some (d.drain_deadline + (if d.aborted then grace else 0))
due grace (returned s) = none

abbrev pub IsBy : ℕ → Option ℕ → Type 0
IsBy now none = Unit
IsBy now (some time) = now ≤ time

-- A run in which no timer is late: an event comes no later than the timer that is waited on.
pub data Timely (params : ServerParams) (grace : ℕ) : ℕ → Option ℕ → Phase → Type 0 where
  begun : (now : ℕ) → Timely params grace now none (start params)
  event :
      {now : ℕ} {signalled : Option ℕ} {p : Phase} (later : ℕ) (e : Event) {p' : Phase}
      → Timely params grace now signalled p
      → now ≤ later
      → IsBy later (due grace p)
      → server_event params later p e ≡ some p'
      → Timely params grace later (signalled_after e later signalled) p'

Timely-Reach :
    {params : ServerParams} {grace now : ℕ} {signalled : Option ℕ} {p : Phase}
    → Timely params grace now signalled p
    → Reach params now signalled p
Timely-Reach (begun now) = Reach.begun now
Timely-Reach (event later e r order by h) = Reach.event later e (Timely-Reach r) order h

module _ (params : ServerParams) (grace : ℕ) where
  -- The end of the drain window, and the latest end of the drain.
  abbrev pub window : ℕ → ℕ
  window t = t + readiness_drain_window_millis

  abbrev pub latest : ℕ → ℕ
  latest t = window t + params.drain_timeout

  abbrev OnTime : ℕ → Option ℕ → Phase → Type 0
  OnTime now none (accepting a) = a.shutdown_deadline ≡ none
  OnTime now none (draining d) = ⊥
  OnTime now none (returned s) = ⊥
  OnTime now (some t) (accepting a) = (a.shutdown_deadline ≡ some (window t)) × (now ≤ window t)
  OnTime now (some t) (draining d) =
      (d.drain_deadline ≤ latest t) × (now ≤ d.drain_deadline + (if d.aborted then grace else 0))
  OnTime now (some t) (returned s) = now ≤ latest t + grace

  abbrev OnTimeOption : ℕ → Option ℕ → Option Phase → Type 0
  OnTimeOption now signalled none = Unit
  OnTimeOption now signalled (some p) = OnTime now signalled p

  drained-OnTime :
      (now t : ℕ) (d : Draining)
      → OnTime now (some t) (draining d)
      → OnTime now (some t) (drained d)
  unfolding drained settle
  drained-OnTime now t d (soon, by) = go d.connections
    where
      go : (cs : List ℕ) → OnTime now (some t) (settle cs d)
      go [] = ground (arith, soon, by)
      go (c ∷ cs) = (soon, by)

  module _ (now later : ℕ) (order : now ≤ later) where
    unsignalled-OnTime :
        (a : Accepting) (e : Event)
        → OnTime now none (accepting a)
        → OnTimeOption later (signalled_after e later none) (accept_event params later a e)
    unfolding accept_event on_signal on_accepted
    unsignalled-OnTime a (shutdown_signal r) unset = rw unset (refl, omega arith)
    unsignalled-OnTime a window_elapsed unset = rw unset tt
    unsignalled-OnTime a (accepted (ok u)) unset = unset
    unsignalled-OnTime a (accepted (err u)) unset = unset
    unsignalled-OnTime a (joined x) unset = tt
    unsignalled-OnTime a drain_elapsed unset = tt

    signalled-OnTime :
        (t : ℕ) (a : Accepting) (e : Event)
        → IsBy later (due grace (accepting a))
        → OnTime now (some t) (accepting a)
        → OnTimeOption later (signalled_after e later (some t)) (accept_event params later a e)
    unfolding accept_event on_signal on_accepted stop_accepting
    signalled-OnTime t a (shutdown_signal r) by (set, early) = rw set tt
    signalled-OnTime t a window_elapsed by (set, early) =
        let soon : later ≤ window t = subst (IsBy later) set by in
        elim (Bool-cases (leb (window t) later)) [
          | inl over ↦ rw (set, over) (drained-OnTime later t _ (omega (arith, soon), omega arith))
          | inr running ↦ rw (set, running) tt
        ]
    signalled-OnTime t a (accepted (ok u)) by (set, early) = (set, subst (IsBy later) set by)
    signalled-OnTime t a (accepted (err u)) by (set, early) = (set, subst (IsBy later) set by)
    signalled-OnTime t a (joined x) by i = tt
    signalled-OnTime t a drain_elapsed by i = tt

    draining-OnTime :
        (t : ℕ) (d : Draining) (e : Event)
        → IsBy later (due grace (draining d))
        → OnTime now (some t) (draining d)
        → OnTimeOption later (signalled_after e later (some t)) (drain_event later d e)
    unfolding drain_event
    draining-OnTime t d (shutdown_signal r) by i = tt
    draining-OnTime t d window_elapsed by i = tt
    draining-OnTime t d (accepted r) by i = tt
    draining-OnTime t d (joined x) by (soon, early) = elim (Bool-cases (holds x d.connections)) [
      | inl held ↦
          rw held
            (drained-OnTime later t (record d { connections = remove x d.connections }) (soon, by))
      | inr missing ↦ rw missing tt
    ]
    draining-OnTime t d drain_elapsed by (soon, early) = elim (Bool-cases d.aborted) [
      | inl twice ↦ rw twice tt
      | inr first ↦
          let soonest : later ≤ d.drain_deadline + grace = ground (arith, by, first) in
          elim (Bool-cases (leb d.drain_deadline later)) [
            | inl over ↦ rw (first, over) (soon, soonest)
            | inr running ↦ rw (first, running) tt
          ]
    ]

    event-OnTime :
        (signalled : Option ℕ) (p : Phase) (e : Event)
        → IsBy later (due grace p)
        → OnTime now signalled p
        → OnTimeOption later (signalled_after e later signalled) (server_event params later p e)
    unfolding server_event
    event-OnTime none (accepting a) e by i = unsignalled-OnTime a e i
    event-OnTime (some t) (accepting a) e by i = signalled-OnTime t a e by i
    event-OnTime none (draining d) e by i = elim i [ ]
    event-OnTime (some t) (draining d) e by i = draining-OnTime t d e by i
    event-OnTime signalled (returned s) e by i = tt

Timely-OnTime :
    {params : ServerParams} {grace now : ℕ} {signalled : Option ℕ} {p : Phase}
    → Timely params grace now signalled p
    → OnTime params grace now signalled p
unfolding start
Timely-OnTime (begun now) = refl
Timely-OnTime {params} {grace} (event {now} {signalled} {p} later e r order by h) =
    subst (λ o. OnTimeOption params grace later (signalled_after e later signalled) o) h
      (event-OnTime params grace now later order signalled p e by (Timely-OnTime r))

bounded :
    (params : ServerParams) (grace now t : ℕ) (p : Phase)
    → OnTime params grace now (some t) p
    → now ≤ latest params grace t + grace
bounded params grace now t (accepting a) i = omega (arith, i.1)
bounded params grace now t (draining d) i = ground (arith, i.0, i.1)
bounded params grace now t (returned s) i = i

-- After a shutdown signal no event of a run is later than the drain window, the drain timeout and the
-- time that aborted tasks take to end, all three together, and the server does not return before the
-- end of the drain window. Here no event is later than the timer that the server waits on.
pub shutdown_bounded :
    {params : ServerParams} {grace now t : ℕ} {p : Phase}
    → Timely params grace now (some t) p
    → (now ≤ t + readiness_drain_window_millis + params.drain_timeout + grace)
      × ((s : AppState) → p ≡ returned s → t + readiness_drain_window_millis ≤ now)
shutdown_bounded {params} {grace} {now} {t} {p} r = (
  bounded params grace now t p (Timely-OnTime r),
  λ s at_end. (subst (Inv params now (some t)) at_end (shutdown_ordered (Timely-Reach r))).1,
)
