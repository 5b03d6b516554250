-- ===== src/Server/System/Stages.antt =====
-- The phase of src/server/accept.rs as a stage of the abstract server, and what each event makes of it.
use tiny_httpd.Base.{
  ℕ, ◌+◌, ◌≤◌, ◌≡◌, ◌⊎◌, refl, Option, none, some, List, [], ◌∷◌, if◌then◌else◌, if_keeps, leb,
  leb→le, ok, err, inl, inr,
}
use tiny_httpd.Handler.State.{AppState, mark_not_ready, mark_shutting_down}
use tiny_httpd.Server.Params.{ServerParams, readiness_drain_window_millis}
use tiny_httpd.Server.Accept.{
  Phase, Draining, accepting, draining, returned, Event, shutdown_signal, window_elapsed, accepted,
  joined, drain_elapsed, server_event, accept_event, drain_event, drained, settle, holds,
  stop_accepting, on_signal, on_accepted,
}
use tiny_httpd.Server.Accept.Shutdown.{phase_state}
use tiny_httpd.Server.System.{IsQuiet}
use tiny_httpd.Server.System.Spec.{Stage, serving, leaving, closing, gone, Marked, IsListening}

abbrev pub stage_by : Option ℕ → Stage
stage_by none = serving
stage_by (some until) = leaving until

abbrev pub stage_of : Phase → Stage
stage_of (accepting a) = stage_by a.shutdown_deadline
stage_of (draining d) = closing
stage_of (returned s) = gone

abbrev pub PhaseOption : (Phase → Type 0) → Option Phase → Type 0
PhaseOption P none = Unit
PhaseOption P (some p) = P p

abbrev pub IsOver : Stage → Type 0
IsOver stage = (stage ≡ closing) ⊎ (stage ≡ gone)

drained-IsOver :
    (d : Draining) → IsOver (stage_of (drained d)) × (phase_state (drained d) ≡ d.state)
unfolding drained settle
drained-IsOver d = go d.connections
  where
    go : (cs : List ℕ) → IsOver (stage_of (settle cs d)) × (phase_state (settle cs d) ≡ d.state)
    go [] = (inr refl, refl)
    go (c ∷ cs) = (inl refl, refl)

module _ (params : ServerParams) (time : ℕ) where
  pub accepted-stage :
      (p : Phase)
      → PhaseOption
          (λ q.
            IsListening (stage_of p) × (stage_of q ≡ stage_of p) × (phase_state q ≡ phase_state p))
          (server_event params time p (accepted (ok tt)))
  unfolding server_event accept_event drain_event on_accepted
  accepted-stage (accepting a) = (
    elim a.shutdown_deadline as (λ o. IsListening (stage_by o)) [ none ↦ tt | some t ↦ tt ],
    refl,
    refl,
  )
  accepted-stage (draining d) = tt
  accepted-stage (returned s) = tt

  -- A signal is taken once, and sets the marks.
  abbrev pub Signals : Stage → AppState → Phase → Type 0
  Signals stage state q =
      ((stage_of q ≡ stage) × (phase_state q ≡ state))
      ⊎ ((stage ≡ serving)
          × (stage_of q ≡ leaving (time + readiness_drain_window_millis))
          × Marked state (phase_state q))

  pub quiet-stage :
      (p : Phase) (e : Event)
      → IsQuiet e
      → PhaseOption (Signals (stage_of p) (phase_state p)) (server_event params time p e)
  unfolding server_event accept_event drain_event on_signal mark_not_ready mark_shutting_down
  quiet-stage (accepting a) (shutdown_signal r) q =
      elim a.shutdown_deadline
        as (λ o.
          PhaseOption (Signals (stage_by o) a.state)
            (elim o [ none ↦ some (accepting (on_signal time a)) | some _ ↦ none ])) [
              | none ↦ inr (refl, refl, (refl, refl, refl))
              | some t ↦ tt
            ]
  quiet-stage (accepting a) (accepted (err u)) q = inl (refl, refl)
  quiet-stage (accepting a) (accepted (ok u)) q = elim q [ ]
  quiet-stage (accepting a) window_elapsed q = elim q [ ]
  quiet-stage (accepting a) (joined t) q = elim q [ ]
  quiet-stage (accepting a) drain_elapsed q = tt
  quiet-stage (draining d) drain_elapsed q =
      if_keeps (λ (o : Option Phase). PhaseOption (Signals closing d.state) o) d.aborted
        (λ twice. tt {0})
        (λ first.
          if_keeps (λ (o : Option Phase). PhaseOption (Signals closing d.state) o)
            (leb d.drain_deadline time) (λ over. inl (refl, refl)) (λ early. tt {0}))
  quiet-stage (draining d) (shutdown_signal r) q = tt
  quiet-stage (draining d) window_elapsed q = tt
  quiet-stage (draining d) (accepted r) q = tt
  quiet-stage (draining d) (joined t) q = elim q [ ]
  quiet-stage (returned s) e q = tt

  abbrev pub Closes : Stage → AppState → Phase → Type 0
  Closes stage state q =
      (until : ℕ) × (stage ≡ leaving until)
      × (until ≤ time)
      × IsOver (stage_of q)
      × (phase_state q ≡ state)

  pub window-stage :
      (p : Phase)
      → PhaseOption
          (Closes (stage_of p) (phase_state p))
          (server_event params time p window_elapsed)
  unfolding server_event accept_event drain_event stop_accepting
  window-stage (accepting a) =
      elim a.shutdown_deadline
        as (λ o. PhaseOption (Closes (stage_by o) a.state) (elim o [
          | none ↦ none
          | some t ↦ if leb t time then some (stop_accepting params time a) else none
        ])) [
          | none ↦ tt
          | some t ↦
              if_keeps (λ (o : Option Phase). PhaseOption (Closes (leaving t) a.state) o)
                (leb t time)
                (λ over. (t, refl, leb→le t time over, (drained-IsOver _).0, (drained-IsOver _).1))
                (λ early. tt {0})
        ]
  window-stage (draining d) = tt
  window-stage (returned s) = tt

  pub joined-stage :
      (p : Phase) (t : ℕ)
      → PhaseOption
          (λ q. (stage_of p ≡ closing) × IsOver (stage_of q) × (phase_state q ≡ phase_state p))
          (server_event params time p (joined t))
  unfolding server_event accept_event drain_event
  joined-stage (accepting a) t = tt
  joined-stage (draining d) t =
      if_keeps
        (λ (o : Option Phase).
          PhaseOption (λ q. (closing ≡ closing) × IsOver (stage_of q) × (phase_state q ≡ d.state))
            o)
        (holds t d.connections) (λ held. (refl, (drained-IsOver _).0, (drained-IsOver _).1))
        (λ missing. tt {0})
  joined-stage (returned s) t = tt
