-- ===== src/Server/Accept/Drain.antt =====
-- How the drain of src/server/accept.rs ends.
use tiny_httpd.Base.{
  ℕ, suc, ◌+◌, ◌-◌, ◌≤◌, ◌≡◌, ◌≢◌, refl, true, Bool-cases, Option, none, some, List, [], ◌∷◌,
  ==_refl, if◌then◌else◌, leb, arith, length, subst, sym, inl, inr,
}
use tiny_httpd.Handler.State.{AppState}
use tiny_httpd.Server.Params.{ServerParams}
use tiny_httpd.Server.Accept.{
  Draining, Phase, accepting, draining, returned, Event, shutdown_signal, window_elapsed, accepted,
  joined, drain_elapsed, remove, holds, settle, drained, drain_event, server_event,
}
use tiny_httpd.Server.Accept.Tasks.{run, length-remove}

-- Events that a drain can still take: a join for each task, and the timeout once.
abbrev pub budget : Draining → ℕ
budget d = length d.connections + (if d.aborted then 0 else 1)

abbrev Settled : AppState → ℕ → Phase → Type 0
Settled state left (accepting a) = ⊥
Settled state left (draining d) = (d.state ≡ state) × (budget d ≤ left) × (d.connections ≢ [])
Settled state left (returned s) = s ≡ state

abbrev SettledOption : AppState → ℕ → Option Phase → Type 0
SettledOption state left none = Unit
SettledOption state left (some p) = (1 ≤ left) × Settled state (left - 1) p

drained-Settled : (d : Draining) (left : ℕ) → budget d ≤ left → Settled d.state left (drained d)
unfolding drained settle
drained-Settled d left h = go d.connections refl
  where
    go : (cs : List ℕ) → d.connections ≡ cs → Settled d.state left (settle cs d)
    go [] same = refl
    go (c ∷ cs) same = (refl, h, λ e. ground (arith, e, same))

drain-Settled :
    (now : ℕ) (d : Draining) (e : Event) (left : ℕ)
    → Settled d.state left (draining d)
    → SettledOption d.state left (drain_event now d e)
unfolding drain_event
drain-Settled now d (shutdown_signal r) left i = tt
drain-Settled now d window_elapsed left i = tt
drain-Settled now d (accepted r) left i = tt
drain-Settled now d (joined t) left (same, enough, some_left) =
    elim (Bool-cases (holds t d.connections)) [
      | inl held ↦
          let shorter = length-remove t d.connections held in
          rw held (
            omega (arith, enough, shorter),
            drained-Settled (record d { connections = remove t d.connections }) (left - 1)
                (omega (arith, enough, shorter)),
          )
      | inr missing ↦ rw missing tt
    ]
drain-Settled now d drain_elapsed left (same, enough, some_left) = elim (Bool-cases d.aborted) [
  | inl twice ↦ rw twice tt
  | inr first ↦
      let bound : length d.connections + 1 ≤ left = rw first at enough in
      elim (Bool-cases (leb d.drain_deadline now)) [
        | inl due ↦ rw (first, due) (omega (arith, bound), (refl, omega (arith, bound), some_left))
        | inr early ↦ rw (first, early) tt
      ]
]

abbrev RunSettled : AppState → ℕ → ℕ → Option Phase → Type 0
RunSettled state left steps none = Unit
RunSettled state left steps (some p) = (steps ≤ left) × Settled state (left - steps) p

event-Settled :
    (params : ServerParams) (now : ℕ) (p : Phase) (e : Event) (state : AppState) (left : ℕ)
    → Settled state left p
    → SettledOption state left (server_event params now p e)
unfolding server_event
event-Settled params now (accepting a) e state left i = elim i [ ]
event-Settled params now (draining d) e state left (same, enough, some_left) =
    subst (λ s. SettledOption s left (drain_event now d e)) same
      (drain-Settled now d e left (refl, enough, some_left))
event-Settled params now (returned s) e state left i = tt

one_more :
    (state : AppState) (left steps : ℕ) (o : Option Phase)
    → 1 ≤ left
    → RunSettled state (left - 1) steps o
    → RunSettled state left (suc steps) o
one_more state left steps none h i = tt
one_more state left steps (some p) h (few, kept) =
    let same : left - 1 - steps ≡ left - suc steps = omega arith in
    (omega (arith, h, few), subst (λ n. Settled state n p) same kept)

run-Settled :
    (params : ServerParams) (es : List (ℕ × Event)) (p : Phase) (state : AppState) (left : ℕ)
    → Settled state left p
    → RunSettled state left (length es) (run params es p)
unfolding run
run-Settled params [] p state left i =
    let same : left ≡ left - 0 = omega arith in (omega arith, subst (λ n. Settled state n p) same i)
run-Settled params ((now, e) ∷ es) p state left i =
    elim (server_event params now p e)
        as (λ o.
          SettledOption state left o
          → RunSettled state left (suc (length es))
              (elim o [ none ↦ none | some p' ↦ run params es p' ])) [
                | none ↦ λ kept. tt
                | some p' ↦ λ kept.
                    one_more state left (length es) _ kept.0
                      (run-Settled params es p' state (left - 1) kept.1)
              ]
      (event-Settled params now p e state left i)

-- The drain has ended with the state as it was, or some task can still be joined, at any time.
abbrev pub Ends : ServerParams → AppState → Phase → Type 0
Ends params state (accepting a) = ⊥
Ends params state (draining d) =
    (t : ℕ) × ((now : ℕ) → (p : Phase) × (server_event params now (draining d) (joined t) ≡ some p))
Ends params state (returned s) = s ≡ state

holds_first : (t : ℕ) (cs : List ℕ) → holds t (t ∷ cs) ≡ true
unfolding holds
holds_first t cs = rw (==_refl t) refl

pub joined_lem :
    (now t : ℕ) (d : Draining)
    → holds t d.connections ≡ true
    → drain_event now d (joined t)
      ≡ some (drained (record d { connections = remove t d.connections }))
unfolding drain_event
joined_lem now t d held = rw held refl

Settled-Ends :
    (params : ServerParams) (state : AppState) (left : ℕ) (p : Phase)
    → Settled state left p
    → Ends params state p
unfolding server_event
Settled-Ends params state left (accepting a) i = i
Settled-Ends params state left (returned s) i = i
Settled-Ends params state left (draining d) (same, enough, some_left) = first d.connections refl
  where
    first : (cs : List ℕ) → d.connections ≡ cs → Ends params state (draining d)
    first [] none_there = absurd (some_left none_there)
    first (t ∷ cs) there = (
      t,
      λ now. (
        drained (record d { connections = remove t d.connections }),
        joined_lem now t d (subst (λ xs. holds t xs ≡ true) (sym there) (holds_first t cs)),
      ),
    )

-- However the drain goes, it takes at most one event for each task that was left and one for the
-- timeout. It never gets stuck: until the server returns, with the marks as they were, some task is
-- left that can be joined.
pub drain_bounded :
    (params : ServerParams) (es : List (ℕ × Event)) (d : Draining) (p : Phase)
    → run params es (drained d) ≡ some p
    → (length es ≤ budget d) × Ends params d.state p
drain_bounded params es d p h =
    let (few, settled) : RunSettled d.state (budget d) (length es) (some p) =
      subst (RunSettled d.state (budget d) (length es)) h (
        run-Settled params es (drained d) d.state (budget d)
          (drained-Settled d (budget d) (omega arith))) in
    (few, Settled-Ends params d.state _ p settled)
