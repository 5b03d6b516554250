-- ===== src/Server/Accept/AnyOrder.antt =====
-- `drain_connections` of src/server/accept.rs joins tasks in the order in which they end.
use tiny_httpd.Base.{
  ℕ, ◌+◌, ◌≤◌, ◌≡◌, refl, true, Bool-cases, inl, inr, Option, none, some, List, [], ◌∷◌, ◌==◌,
  ==_refl, if◌then◌else◌, ap, ◌∙◌, arith, count,
}
use tiny_httpd.Server.Params.{ServerParams}
use tiny_httpd.Server.Accept.{
  Phase, Draining, draining, returned, Event, joined, remove, holds, settle, drained, drain_event,
  server_event,
}
use tiny_httpd.Server.Accept.Tasks.{run}
use tiny_httpd.Server.Accept.Drain.{joined_lem}

pub count-remove :
    (a t : ℕ) (xs : List ℕ)
    → holds t xs ≡ true
    → (if t == a then 1 else 0) + count a (remove t xs) ≡ count a xs
unfolding remove holds
count-remove a t [] h = cc
count-remove a t (x ∷ xs) h = elim (Bool-cases (x == t)) [
  | inl same ↦ rw same (ground (arith, same))
  | inr differs ↦ rw differs (omega (arith, count-remove a t xs (rw differs at h)))
]

pub holds_counted : (t : ℕ) (xs : List ℕ) → 1 ≤ count t xs → holds t xs ≡ true
unfolding holds
holds_counted t [] h = absurd (omega arith)
holds_counted t (x ∷ xs) h = ground (arith, holds_counted t xs)

-- Tasks that end, with their times.
abbrev pub joins : List (ℕ × ℕ) → List (ℕ × Event)
joins [] = []
joins ((now, t) ∷ ends) = (now, joined t) ∷ joins ends

abbrev pub tasks_of : List (ℕ × ℕ) → List ℕ
tasks_of [] = []
tasks_of ((now, t) ∷ ends) = t ∷ tasks_of ends

-- The same tasks, in whatever order.
abbrev pub SameTasks : List ℕ → List ℕ → Type 0
SameTasks xs ys = (a : ℕ) → count a xs ≡ count a ys

pub SameTasks-nil : (xs : List ℕ) → SameTasks [] xs → xs ≡ []
SameTasks-nil [] h = refl
SameTasks-nil (x ∷ xs) h = absurd (ground (arith, h x, ==_refl x))

pub drained_more : (t : ℕ) (d : Draining) → holds t d.connections ≡ true → drained d ≡ draining d
unfolding drained settle holds
drained_more t d = go d.connections
  where
    go : (cs : List ℕ) → holds t cs ≡ true → settle cs d ≡ draining d
    go [] h = cc
    go (c ∷ cs) h = refl

run_joined :
    (params : ServerParams) (now t : ℕ) (es : List (ℕ × Event)) (d : Draining)
    → holds t d.connections ≡ true
    → run params ((now, joined t) ∷ es) (drained d)
      ≡ run params es (drained (record d { connections = remove t d.connections }))
unfolding run server_event drain_event
run_joined params now t es d held =
    ap (run params ((now, joined t) ∷ es)) (drained_more t d held)
    ∙ ap
        (λ (o : Option Phase). elim o as (λ _. Option Phase) [
          | none ↦ none
          | some p ↦ run params es p
        ])
        (joined_lem now t d held)

-- The drain returns, with the marks as they were, once each task has ended, whichever order they end
-- in and at whatever times.
pub drained_in_any_order :
    (params : ServerParams) (ends : List (ℕ × ℕ)) (d : Draining)
    → SameTasks (tasks_of ends) d.connections
    → run params (joins ends) (drained d) ≡ some (returned d.state)
unfolding run drained settle
drained_in_any_order params [] d h = ap (λ cs. some (settle cs d)) (SameTasks-nil d.connections h)
drained_in_any_order params ((now, t) ∷ ends) d h =
    let held = holds_counted t d.connections (ground (arith, h t, ==_refl t)) in
    run_joined params now t (joins ends) d held
    ∙ drained_in_any_order params ends (record d { connections = remove t d.connections })
        (λ a. omega (arith, h a, count-remove a t d.connections held))
