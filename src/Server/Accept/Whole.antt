-- ===== src/Server/Accept/Whole.antt =====
-- `run_with_shutdown` of src/server/accept.rs from its call to its result.
use tiny_httpd.Base.{
  ℕ, ◌+◌, ◌≤◌, ◌≡◌, refl, Option, Option-cases, none, some, List, [], ◌∷◌, ◌++◌, Result, ok, err,
  inl, inr, ap, leb, leb→le, arith, if_keeps, subst,
}
use tiny_httpd.Fs.Error.{IoError}
use tiny_httpd.Handler.State.{AppState}
use tiny_httpd.Server.Params.{ServerParams, readiness_drain_window_millis}
use tiny_httpd.Server.Accept.{
  Accepting, Draining, Phase, accepting, draining, returned, Event, shutdown_signal, window_elapsed,
  accepted, joined, drain_elapsed, start, server_event, accept_event, drain_event, drained, settle,
  holds, on_signal, on_accepted, stop_accepting,
}
use tiny_httpd.Server.Accept.Tasks.{run, count, spawned, taken_out, tasks_conserved}

-- The result, where the server has returned.
unfoldable pub outcome : Phase → Option (Result IoError (Unit {0}))
outcome (returned state) = some (ok tt)
outcome _ = none

-- `local_addr` is asked before the loop, and its error is the only one.
unfoldable pub run_with_shutdown :
    Result IoError (Unit {0}) → ServerParams → List (ℕ × Event) → Option (Result IoError (Unit {0}))
unfolding run start outcome
run_with_shutdown (err e) params events = some (err e)
run_with_shutdown (ok local_addr) params events = elim (run params events (start params)) [
  | none ↦ none
  | some p ↦ outcome p
]

-- In the drain, or behind it.
abbrev IsOver : Phase → Type 0
IsOver (accepting a) = ⊥
IsOver _ = Unit

drained-IsOver : (d : Draining) → IsOver (drained d)
unfolding drained settle
drained-IsOver d = elim d.connections as (λ cs. IsOver (settle cs d)) [ [] ↦ tt | c ∷ cs ↦ tt ]

-- The window has elapsed at `deadline` or later, and no connection was accepted behind that.
abbrev pub Stops : ℕ → List (ℕ × Event) → Type 0
Stops deadline es =
    (between after : List (ℕ × Event)) × (u : ℕ) × (es ≡ between ++ (u, window_elapsed) ∷ after)
    × (deadline ≤ u)
    × (count spawned after ≡ 0)

-- The signal has come, and then the drain window has passed.
abbrev pub IsOrderly : List (ℕ × Event) → Type 0
IsOrderly es =
    (before rest : List (ℕ × Event)) × (t : ℕ) × (r : Result (Unit {0}) (Unit {0})) × (es
      ≡ before ++ (t, shutdown_signal r) ∷ rest)
    × Stops (t + readiness_drain_window_millis) rest

pass_Stops :
    (deadline : ℕ) (e : ℕ × Event) (es : List (ℕ × Event))
    → Stops deadline es
    → Stops deadline (e ∷ es)
pass_Stops deadline e es (between, after, u, same, late, none_new) =
    (e ∷ between, after, u, ap (λ xs. e ∷ xs) same, late, none_new)

pass_IsOrderly : (e : ℕ × Event) (es : List (ℕ × Event)) → IsOrderly es → IsOrderly (e ∷ es)
pass_IsOrderly e es (before, rest, t, r, same, stops) =
    (e ∷ before, rest, t, r, ap (λ xs. e ∷ xs) same, stops)

module _ (params : ServerParams) (state : AppState) where
  -- A run to the end.
  abbrev Returns : List (ℕ × Event) → Phase → Type 0
  Returns es p = run params es p ≡ some (returned state)

  -- What an event of the drain leaves.
  abbrev Drains : Event → Option Phase → Type 0
  Drains e none = Unit
  Drains e (some p) = IsOver p × (spawned e ≡ 0)

  over-Drains :
      (now : ℕ) (p : Phase) (e : Event) → IsOver p → Drains e (server_event params now p e)
  unfolding server_event drain_event spawned
  over-Drains now (accepting a) e over = elim over [ ]
  over-Drains now (returned s) e over = tt
  over-Drains now (draining d) (shutdown_signal r) over = tt
  over-Drains now (draining d) window_elapsed over = tt
  over-Drains now (draining d) (accepted r) over = tt
  over-Drains now (draining d) (joined t) over =
      if_keeps (λ (o : Option Phase). Drains (joined t) o) (holds t d.connections)
        (λ held. (drained-IsOver _, refl)) (λ missing. tt {0})
  over-Drains now (draining d) drain_elapsed over =
      if_keeps (λ (o : Option Phase). Drains drain_elapsed o) d.aborted (λ twice. tt {0})
        (λ first.
          if_keeps (λ (o : Option Phase). Drains drain_elapsed o) (leb d.drain_deadline now)
            (λ late. (tt, refl)) (λ early. tt {0}))

  over-spawned :
      (es : List (ℕ × Event)) (p : Phase) → IsOver p → Returns es p → count spawned es ≡ 0
  unfolding run
  over-spawned [] p over h = refl
  over-spawned ((now, e) ∷ es) p over h = elim (Option-cases (server_event params now p e)) [
    | inl refused ↦ cc (rw (refused, run) at h)
    | inr (q, taken) ↦
        let (still, none_new) = subst (Drains e) taken (over-Drains now p e over) in
        omega (arith, none_new, over-spawned es q still (rw (taken, run) at h))
  ]

  -- What the end of the window leaves.
  abbrev Closes : ℕ → ℕ → Option Phase → Type 0
  Closes deadline now none = Unit
  Closes deadline now (some p) = (deadline ≤ now) × IsOver p

  window-Closes :
      (now : ℕ) (a : Accepting) (deadline : ℕ)
      → a.shutdown_deadline ≡ some deadline
      → Closes deadline now (server_event params now (accepting a) window_elapsed)
  unfolding server_event accept_event stop_accepting
  window-Closes now a deadline set = rw set (
      if_keeps (λ (o : Option Phase). Closes deadline now o) (leb deadline now)
        (λ late. (leb→le deadline now late, drained-IsOver _)) (λ early. tt {0}))

  close-Stops :
      (now : ℕ) (es : List (ℕ × Event)) (a : Accepting) (deadline : ℕ)
      → a.shutdown_deadline ≡ some deadline
      → Returns ((now, window_elapsed) ∷ es) (accepting a)
      → Stops deadline ((now, window_elapsed) ∷ es)
  unfolding run
  close-Stops now es a deadline set h =
      elim (Option-cases (server_event params now (accepting a) window_elapsed)) [
        | inl refused ↦ cc (rw (refused, run) at h)
        | inr (q, taken) ↦
            let (late, over) =
              subst (Closes deadline now) taken (window-Closes now a deadline set) in
            ([], es, now, refl, late, over-spawned es q over (rw (taken, run) at h))
      ]

  signalled-Stops :
      (es : List (ℕ × Event)) (a : Accepting) (deadline : ℕ)
      → a.shutdown_deadline ≡ some deadline
      → Returns es (accepting a)
      → Stops deadline es
  unfolding run server_event accept_event on_accepted stop_accepting
  signalled-Stops [] a deadline set h = cc
  signalled-Stops ((now, shutdown_signal r) ∷ es) a deadline set h = cc (rw set at h)
  signalled-Stops ((now, window_elapsed) ∷ es) a deadline set h =
      close-Stops now es a deadline set h
  signalled-Stops ((now, accepted (ok u)) ∷ es) a deadline set h =
      pass_Stops deadline _ es (signalled-Stops es (on_accepted a) deadline set h)
  signalled-Stops ((now, accepted (err u)) ∷ es) a deadline set h =
      pass_Stops deadline _ es (signalled-Stops es a deadline set h)
  signalled-Stops ((now, joined t) ∷ es) a deadline set h = cc
  signalled-Stops ((now, drain_elapsed) ∷ es) a deadline set h = cc

  Returns-IsOrderly :
      (es : List (ℕ × Event)) (a : Accepting)
      → a.shutdown_deadline ≡ none
      → Returns es (accepting a)
      → IsOrderly es
  unfolding run server_event accept_event on_accepted on_signal
  Returns-IsOrderly [] a unset h = cc
  Returns-IsOrderly ((now, shutdown_signal r) ∷ es) a unset h =
      ([], es, now, r, refl, signalled-Stops es (on_signal now a) _ refl (rw unset at h))
  Returns-IsOrderly ((now, window_elapsed) ∷ es) a unset h = cc (rw unset at h)
  Returns-IsOrderly ((now, accepted (ok u)) ∷ es) a unset h =
      pass_IsOrderly _ es (Returns-IsOrderly es (on_accepted a) unset h)
  Returns-IsOrderly ((now, accepted (err u)) ∷ es) a unset h =
      pass_IsOrderly _ es (Returns-IsOrderly es a unset h)
  Returns-IsOrderly ((now, joined t) ∷ es) a unset h = cc
  Returns-IsOrderly ((now, drain_elapsed) ∷ es) a unset h = cc

outcome-eq-ok :
    (p : Phase) {u : Unit {0}} → outcome p ≡ some (ok u) → (state : AppState) × (p ≡ returned state)
unfolding outcome
outcome-eq-ok (accepting a) h = cc
outcome-eq-ok (draining d) h = cc
outcome-eq-ok (returned state) h = (state, refl)

outcome-ne-err : (p : Phase) (e : IoError) → outcome p ≡ some (err e) → ⊥
unfolding outcome
outcome-ne-err (accepting a) e h = cc
outcome-ne-err (draining d) e h = cc
outcome-ne-err (returned state) e h = cc

-- What the result of `run_with_shutdown` says.
abbrev pub Ends : Result IoError (Unit {0}) → List (ℕ × Event) → Result IoError (Unit {0}) → Type 0
Ends local_addr es (ok done) =
    (local_addr ≡ ok tt) × IsOrderly es × (count taken_out es ≡ count spawned es)
Ends local_addr es (err e) = local_addr ≡ err e

-- `run_with_shutdown` succeeds only behind an orderly shutdown: among its events the signal comes,
-- then, at least the drain window later, the end of that window; no connection is accepted behind
-- that, and as many tasks have been joined as connections were accepted. It fails only with the error
-- of `local_addr`.
pub run_with_shutdown-Ends :
    (local_addr : Result IoError (Unit {0})) (params : ServerParams) (es : List (ℕ × Event))
    (r : Result IoError (Unit {0}))
    → run_with_shutdown local_addr params es ≡ some r
    → Ends local_addr es r
unfolding run_with_shutdown start
run_with_shutdown-Ends (err f) params es (ok done) h = cc
run_with_shutdown-Ends (err f) params es (err e) h = cc
run_with_shutdown-Ends (ok addr) params es r h =
    elim (Option-cases (run params es (start params))) [
      | inl stuck ↦ cc (rw (stuck, run_with_shutdown) at h)
      | inr (p, at_end) ↦ by_result r p at_end (rw (at_end, run_with_shutdown) at h)
    ]
  where
    by_result :
        (r : Result IoError (Unit {0})) (p : Phase)
        → run params es (start params) ≡ some p
        → outcome p ≡ some r
        → Ends (ok addr) es r
    by_result (err e) p at_end h = absurd (outcome-ne-err p e h)
    by_result (ok done) p at_end h =
        let (state, same) = outcome-eq-ok p h in
        let returns = subst (λ q. run params es (start params) ≡ some q) same at_end in
        (
          refl,
          Returns-IsOrderly params state es _ refl returns,
          tasks_conserved params es (returned state) returns,
        )
