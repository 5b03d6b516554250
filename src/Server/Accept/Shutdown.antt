-- ===== src/Server/Accept/Shutdown.antt =====
-- The order of the shutdown in src/server/accept.rs.
use tiny_httpd.Base.{
  ℕ, ◌+◌, ◌≤◌, ◌≡◌, refl, Bool, true, false, Option, none, some, List, [], ◌∷◌, if◌then◌else◌, leb,
  leb→le, ap, ok, err, arith, subst,
}
use tiny_httpd.Handler.State.{AppState, new, mark_not_ready, mark_shutting_down}
use tiny_httpd.Server.Params.{ServerParams, readiness_drain_window_millis}
use tiny_httpd.Server.Accept.{
  Accepting, Draining, Phase, accepting, draining, returned, Event, shutdown_signal, window_elapsed,
  accepted, joined, drain_elapsed, start, remove, holds, settle, drained, on_signal, on_accepted,
  stop_accepting, accept_event, drain_event, server_event,
}

-- A run of the server, with the time of its last event and of the shutdown signal, if there was
-- one.
abbrev pub signalled_after : Event → ℕ → Option ℕ → Option ℕ
signalled_after (shutdown_signal _) now before = some now
signalled_after _ now before = before

pub data Reach (params : ServerParams) : ℕ → Option ℕ → Phase → Type 0 where
  begun : (now : ℕ) → Reach params now none (start params)
  event :
      {now : ℕ} {signalled : Option ℕ} {p : Phase} (later : ℕ) (e : Event) {p' : Phase}
      → Reach params now signalled p
      → now ≤ later
      → server_event params later p e ≡ some p'
      → Reach params later (signalled_after e later signalled) p'

-- The marks that the request handler reads.
abbrev pub phase_state : Phase → AppState
phase_state (accepting a) = a.state
phase_state (draining d) = d.state
phase_state (returned s) = s

abbrev pub marked : ServerParams → AppState
marked params = mark_shutting_down (mark_not_ready (new params.content_root))

-- Before the signal the state is as it was made, and no drain has begun; after it both marks are
-- set, and the listener is closed only when the drain window has passed.
abbrev pub Inv : ServerParams → ℕ → Option ℕ → Phase → Type 0
Inv params now none (accepting a) =
    (a.state ≡ new params.content_root) × (a.shutdown_deadline ≡ none)
Inv params now none (draining d) = ⊥
Inv params now none (returned s) = ⊥
Inv params now (some t) (accepting a) =
    (a.state ≡ marked params) × (a.shutdown_deadline ≡ some (t + readiness_drain_window_millis))
Inv params now (some t) (draining d) =
    (d.state ≡ marked params) × (t + readiness_drain_window_millis ≤ now)
Inv params now (some t) (returned s) =
    (s ≡ marked params) × (t + readiness_drain_window_millis ≤ now)

abbrev InvOption : ServerParams → ℕ → Option ℕ → Option Phase → Type 0
InvOption params now signalled none = Unit
InvOption params now signalled (some p) = Inv params now signalled p

drained-Inv :
    (params : ServerParams) (now t : ℕ) (d : Draining)
    → d.state ≡ marked params
    → t + readiness_drain_window_millis ≤ now
    → Inv params now (some t) (drained d)
unfolding drained settle
drained-Inv params now t d same late = go d.connections
  where
    go : (cs : List ℕ) → Inv params now (some t) (settle cs d)
    go [] = (same, late)
    go (c ∷ cs) = (same, late)

module _ (params : ServerParams) (now later : ℕ) (order : now ≤ later) where
  unsignalled-Inv :
      (a : Accepting) (e : Event)
      → Inv params now none (accepting a)
      → InvOption params later (signalled_after e later none) (accept_event params later a e)
  unfolding accept_event on_signal on_accepted
  unsignalled-Inv a (shutdown_signal r) (same, unset) =
      rw unset (ap (λ s. mark_shutting_down (mark_not_ready s)) same, refl)
  unsignalled-Inv a window_elapsed (same, unset) = rw unset tt
  unsignalled-Inv a (accepted (ok u)) (same, unset) = (same, unset)
  unsignalled-Inv a (accepted (err u)) (same, unset) = (same, unset)
  unsignalled-Inv a (joined t) i = tt
  unsignalled-Inv a drain_elapsed i = tt

  signalled-Inv :
      (t : ℕ) (a : Accepting) (e : Event)
      → Inv params now (some t) (accepting a)
      → InvOption params later (signalled_after e later (some t)) (accept_event params later a e)
  unfolding accept_event on_signal on_accepted stop_accepting
  signalled-Inv t a (shutdown_signal r) (same, set) = rw set tt
  signalled-Inv t a window_elapsed (same, set) =
      rw set (timer (leb (t + readiness_drain_window_millis) later) refl)
    where
      timer :
          (b : Bool)
          → leb (t + readiness_drain_window_millis) later ≡ b
          → InvOption params later
              (some t)
              (if b then some (stop_accepting params later a) else none)
      timer true due = drained-Inv params later t _ same (leb→le _ _ due)
      timer false early = tt
  signalled-Inv t a (accepted (ok u)) (same, set) = (same, set)
  signalled-Inv t a (accepted (err u)) (same, set) = (same, set)
  signalled-Inv t a (joined x) i = tt
  signalled-Inv t a drain_elapsed i = tt

draining-Inv :
    (params : ServerParams) (now later : ℕ)
    → now ≤ later
    → (signalled : Option ℕ) (d : Draining) (e : Event) → Inv params now signalled (draining d)
    → InvOption params later (signalled_after e later signalled) (drain_event later d e)
unfolding drain_event
draining-Inv params now later order none d e i = elim i [ ]
draining-Inv params now later order (some t) d (shutdown_signal r) i = tt
draining-Inv params now later order (some t) d window_elapsed i = tt
draining-Inv params now later order (some t) d (accepted r) i = tt
draining-Inv params now later order (some t) d (joined x) (same, late) =
    member (holds x d.connections)
  where
    member :
        (b : Bool)
        → InvOption params later
            (some t)
            (if b then some (drained (record d { connections = remove x d.connections })) else none)
    member true = drained-Inv params later t _ same (omega (arith, late, order))
    member false = tt
draining-Inv params now later order (some t) d drain_elapsed (same, late) =
    timer d.aborted (leb d.drain_deadline later)
  where
    timer :
        (b c : Bool)
        → InvOption params later
            (some t)
            (if b then none else if c then some (draining (record d { aborted = true })) else none)
    timer true c = tt
    timer false true = (same, omega (arith, late, order))
    timer false false = tt

event-Inv :
    (params : ServerParams) (now later : ℕ)
    → now ≤ later
    → (signalled : Option ℕ) (p : Phase) (e : Event) → Inv params now signalled p
    → InvOption params later (signalled_after e later signalled) (server_event params later p e)
unfolding server_event
event-Inv params now later order none (accepting a) e i =
    unsignalled-Inv params now later order a e i
event-Inv params now later order (some t) (accepting a) e i =
    signalled-Inv params now later order t a e i
event-Inv params now later order signalled (draining d) e i =
    draining-Inv params now later order signalled d e i
event-Inv params now later order signalled (returned s) e i = tt

-- In every run the shutdown keeps its order. Until the shutdown signal the request handler's state
-- is as it was made and the listener is open. From the signal on both marks are set, and the accept
-- loop has ended only if the drain window has passed since the signal; the marks stay through the
-- drain and until the server returns.
pub shutdown_ordered :
    {params : ServerParams} {now : ℕ} {signalled : Option ℕ} {p : Phase}
    → Reach params now signalled p
    → Inv params now signalled p
unfolding start
shutdown_ordered (begun now) = (refl, refl)
shutdown_ordered {params} (event {now} {signalled} {p} later e {p'} r order h) =
    subst (λ o. InvOption params later (signalled_after e later signalled) o) h
      (event-Inv params now later order signalled p e (shutdown_ordered r))
