-- ===== src/Server/System/Refines.antt =====
-- The system of src/server/accept.rs keeps its promise.
use tiny_httpd.Base.{
  ℕ, ◌+◌, ◌≤◌, ◌≡◌, refl, none, some, List, [], ◌∷◌, ◌++◌, All, count, counts, ap, subst, ◌∙◌, inl,
  inr,
}
use mathlib.Core.Quot
use tiny_httpd.Handler.State.{AppState}
use tiny_httpd.Server.Params.{ServerParams}
use tiny_httpd.Server.Accept.{Phase, accepting, draining, returned}
use tiny_httpd.Server.Accept.Shutdown.{phase_state}
use tiny_httpd.Server.System.{
  Link, System, new_link, IsPrompt, Step, accepts, quiet, broadcasts, joins, moves, ends, cancelled,
  Reach, later,
}
use tiny_httpd.Server.System.Members.{held, ids, links, Accounted, Reach-Accounted}
use tiny_httpd.Server.System.Spec as Spec
use tiny_httpd.Server.System.Spec.{
  TaskBag, unordered, with_task, Stage, serving, leaving, closing, gone, View, IsListening,
  IsClosed, Move, keeps, connects, leaves, closes,
}
use tiny_httpd.Server.System.Stages.{
  stage_by, stage_of, PhaseOption, IsOver, Signals, Closes, accepted-stage, quiet-stage,
  window-stage, joined-stage,
}

-- The tasks that run or have ended, whichever the order.
abbrev pub view : System → View
view s = record {
  stage = stage_of s.phase;
  state = phase_state s.phase;
  tasks = unordered (ids s.links ++ s.ended);
}

gone-held : (p : Phase) → stage_of p ≡ gone → held p ≡ []
gone-held (returned s) h = refl
gone-held (draining d) h = cc
gone-held (accepting a) h = absurd (
    elim a.shutdown_deadline as (λ o. stage_by o ≡ gone → ⊥) [ none ↦ λ e. cc | some t ↦ λ e. cc ]
      h)

view-IsClosed : (s : System) → Accounted s → IsOver (stage_of s.phase) → IsClosed (view s)
view-IsClosed s counted (inl open_still) = inl open_still
view-IsClosed s counted (inr over) =
    inr (over, Quot.sound (λ a. grind (counts, counted a, gone-held s.phase over)))

-- The view depends on how often each task is there.
same_tasks :
    (s s' : System)
    → stage_of s'.phase ≡ stage_of s.phase
    → phase_state s'.phase ≡ phase_state s.phase
    → ((a : ℕ)
        → count a (ids s'.links) + count a s'.ended ≡ count a (ids s.links) + count a s.ended)
    → view s' ≡ view s
same_tasks s s' stage state same =
    ap (λ (x : Stage). record { stage = x; state = phase_state s'.phase; tasks = (view s').tasks })
      stage
    ∙ ap (λ (x : AppState). record { stage = stage_of s.phase; state = x; tasks = (view s').tasks })
        state
    ∙ ap
        (λ (x : TaskBag). record {
          stage = stage_of s.phase;
          state = phase_state s.phase;
          tasks = x;
        })
        (Quot.sound (λ a. grind (counts, same a)))

module _ (params : ServerParams) (time : ℕ) where
  gone_one :
      (s : System) (before after : List Link) (l : Link)
      → s.links ≡ before ++ l ∷ after
      → Move time (view s) (view (record s { links = before ++ after; ended = l.task ∷ s.ended }))
  gone_one s before after l same = keeps (
      same_tasks s (record s { links = before ++ after; ended = l.task ∷ s.ended }) refl refl
        (λ a. grind (links, same)))

  Step-Move : {s s' : System} → Accounted s' → Step params time s s' → Move time (view s) (view s')
  unfolding with_task
  Step-Move {s} counted (accepts p h) =
      let (listens, same, state) =
        subst
          (PhaseOption (λ q.
            IsListening (stage_of s.phase)
            × (stage_of q ≡ stage_of s.phase)
            × (phase_state q ≡ phase_state s.phase)))
          h (accepted-stage params time s.phase) in
      connects (new_link params time s.phase).task listens same state refl
  Step-Move {s} counted (quiet e p q h) =
      elim (subst (PhaseOption (Signals params time (stage_of s.phase) (phase_state s.phase))) h
        (quiet-stage params time s.phase e q)) [
          | inl (same, state) ↦ keeps (same_tasks s (record s { phase = p }) same state (λ a. refl))
          | inr (first, then_leaving, marks) ↦ leaves first then_leaving marks refl
        ]
  Step-Move {s} counted (broadcasts p h) =
      let (until, open_until, by, over, state) =
        subst (PhaseOption (Closes params time (stage_of s.phase) (phase_state s.phase))) h
          (window-stage params time s.phase) in
      closes until open_until by
        (view-IsClosed (record s { phase = p; broadcast = some time }) counted over) state refl
  Step-Move {s} counted (joins before after t p e h) =
      let (was_closing, over, state) =
        subst
          (PhaseOption (λ q.
            (stage_of s.phase ≡ closing)
            × IsOver (stage_of q)
            × (phase_state q ≡ phase_state s.phase)))
          h (joined-stage params time s.phase t) in
      Spec.joins t was_closing
        (view-IsClosed (record s { phase = p; ended = before ++ after }) counted over) state
        (Quot.sound (λ a. grind (counts, e)))
  Step-Move {s} counted (moves before after l e c same heard h) = keeps (
      same_tasks s (record s { links = before ++ record l { connection = c } ∷ after }) refl refl
        (λ a. grind (links, same)))
  Step-Move {s} counted (ends before after l e same heard h) = gone_one s before after l same
  Step-Move {s} counted (cancelled before after l same h) = gone_one s before after l same

-- Each step of a run is a move of the abstract server or changes nothing that it shows: the signal is
-- taken once, and sets both marks, which no other step changes; connections are accepted until the
-- drain window after it has passed, and not any more once the server has stopped, which it does no
-- sooner than that; tasks are joined one by one only after it has stopped; and the server is gone
-- only when no task is left, whether it ended by itself or was aborted.
pub system_refines :
    {params : ServerParams} {delay now : ℕ} {s s' : System}
    → Reach params delay now s
    → (time : ℕ) → now ≤ time
    → All (IsPrompt delay time s.broadcast) s.links
    → Step params time s s'
    → Move time (view s) (view s')
system_refines {params} r time order prompt st =
    Step-Move params time (Reach-Accounted (later time r order prompt st)) st
