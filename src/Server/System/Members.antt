-- ===== src/Server/System/Members.antt =====
-- Which tasks the server of src/server/accept.rs waits for.
use tiny_httpd.Base.{
  ℕ, ◌+◌, ◌≡◌, refl, true, false, Bool-cases, inl, inr, Option, none, some, List, [], ◌∷◌, ◌++◌,
  ◌==◌, ==_refl, ok, err, if◌then◌else◌, leb, arith, subst, ap, count, counts,
}
use tiny_httpd.Handler.State.{AppState}
use tiny_httpd.Server.Params.{ServerParams}
use tiny_httpd.Server.Accept.{
  Phase, Draining, accepting, draining, returned, Event, shutdown_signal, window_elapsed, accepted,
  joined, drain_elapsed, start, server_event, accept_event, drain_event, drained, settle, holds,
  remove, stop_accepting, on_signal, on_accepted,
}
use tiny_httpd.Server.Accept.AnyOrder.{count-remove}
use tiny_httpd.Server.System.{
  Link, System, new_link, IsQuiet, Step, accepts, quiet, broadcasts, joins, moves, ends, cancelled,
  Reach, begun, later,
}

-- The tasks of `connections`, and those that run.
abbrev pub held : Phase → List ℕ
held (accepting a) = a.connections
held (draining d) = d.connections
held (returned s) = []

abbrev pub ids : List Link → List ℕ
ids [] = []
ids (l ∷ ls) = l.task ∷ ids ls

pub count-ids_middle :
    (a : ℕ) (before after : List Link) (l : Link)
    → count a (ids (before ++ l ∷ after))
      ≡ (if l.task == a then 1 else 0) + count a (ids (before ++ after))
count-ids_middle a [] after l = refl
count-ids_middle a (x ∷ before) after l = omega (arith, count-ids_middle a before after l)

pub ruleset links = (counts, count-ids_middle)

held-drained : (d : Draining) → held (drained d) ≡ d.connections
unfolding drained settle
held-drained d = go d.connections refl
  where
    go : (cs : List ℕ) → d.connections ≡ cs → held (settle cs d) ≡ cs
    go [] h = refl
    go (c ∷ cs) h = h

-- What an event does to the set of tasks.
abbrev Holds : (List ℕ → Type 0) → Option Phase → Type 0
Holds P none = Unit
Holds P (some p) = P (held p)

module _ (params : ServerParams) (time : ℕ) where
  accepts-held :
      (p : Phase)
      → Holds
          (λ xs. xs ≡ (new_link params time p).task ∷ held p)
          (server_event params time p (accepted (ok tt)))
  unfolding server_event accept_event drain_event on_accepted
  accepts-held (accepting a) = refl
  accepts-held (draining d) = tt
  accepts-held (returned s) = tt

  quiet-held :
      (p : Phase) (e : Event) → IsQuiet e → Holds (λ xs. xs ≡ held p) (server_event params time p e)
  unfolding server_event accept_event drain_event on_signal
  quiet-held (accepting a) (shutdown_signal r) q =
      elim a.shutdown_deadline
        as (λ o.
          Holds (λ xs. xs ≡ a.connections)
            (elim o [ none ↦ some (accepting (on_signal time a)) | some _ ↦ none ])) [
              | none ↦ refl
              | some t ↦ tt
            ]
  quiet-held (accepting a) (accepted (err u)) q = refl
  quiet-held (accepting a) (accepted (ok u)) q = elim q [ ]
  quiet-held (accepting a) window_elapsed q = elim q [ ]
  quiet-held (accepting a) (joined t) q = elim q [ ]
  quiet-held (accepting a) drain_elapsed q = tt
  quiet-held (draining d) drain_elapsed q = elim (Bool-cases d.aborted) [
    | inl twice ↦ rw twice tt
    | inr first ↦
        elim (leb d.drain_deadline time)
          as (λ b.
            Holds (λ xs. xs ≡ d.connections)
              (if d.aborted
                then none
                else if b
                then some (draining (record d { aborted = true }))
                else none)) [ true ↦ rw first refl | false ↦ rw first tt ]
  ]
  quiet-held (draining d) (shutdown_signal r) q = tt
  quiet-held (draining d) window_elapsed q = tt
  quiet-held (draining d) (accepted r) q = tt
  quiet-held (draining d) (joined t) q = elim q [ ]
  quiet-held (returned s) e q = tt

  broadcasts-held :
      (p : Phase) → Holds (λ xs. xs ≡ held p) (server_event params time p window_elapsed)
  unfolding server_event accept_event drain_event stop_accepting
  broadcasts-held (accepting a) =
      elim a.shutdown_deadline
        as (λ o.
          Holds (λ xs. xs ≡ a.connections)
            (elim o [
              | none ↦ none
              | some t ↦ if leb t time then some (stop_accepting params time a) else none
            ])) [
              | none ↦ tt
              | some t ↦
                  elim (leb t time)
                    as (λ b.
                      Holds (λ xs. xs ≡ a.connections)
                        (if b then some (stop_accepting params time a) else none)) [
                          | true ↦ held-drained _
                          | false ↦ tt
                        ]
            ]
  broadcasts-held (draining d) = tt
  broadcasts-held (returned s) = tt

  joins-held :
      (p : Phase) (t : ℕ)
      → Holds
          (λ xs. (a : ℕ) → (if t == a then 1 else 0) + count a xs ≡ count a (held p))
          (server_event params time p (joined t))
  unfolding server_event accept_event drain_event
  joins-held (accepting a) t = tt
  joins-held (returned s) t = tt
  joins-held (draining d) t = elim (Bool-cases (holds t d.connections)) [
    | inl is_held ↦ rw is_held (λ a.
        rw (held-drained (record d { connections = remove t d.connections }))
          (count-remove a t d.connections is_held))
    | inr missing ↦ rw missing tt
  ]

-- Each task that the server waits for runs or has ended, and each such is waited for, once.
abbrev pub Accounted : System → Type 0
Accounted s = (a : ℕ) → count a (held s.phase) ≡ count a (ids s.links) + count a s.ended

module _ (params : ServerParams) (time : ℕ) where
  Step-Accounted : {s s' : System} → Step params time s s' → Accounted s → Accounted s'
  Step-Accounted {s} (accepts p h) i a =
      let same =
        subst (Holds (λ xs. xs ≡ (new_link params time s.phase).task ∷ held s.phase)) h
          (accepts-held params time s.phase) in
      omega (arith, i a, ap (count a) same)
  Step-Accounted {s} (quiet e p q h) i a =
      let same = subst (Holds (λ xs. xs ≡ held s.phase)) h (quiet-held params time s.phase e q) in
      omega (arith, i a, ap (count a) same)
  Step-Accounted {s} (broadcasts p h) i a =
      let same = subst (Holds (λ xs. xs ≡ held s.phase)) h (broadcasts-held params time s.phase) in
      omega (arith, i a, ap (count a) same)
  Step-Accounted {s} (joins before after t p e h) i a =
      let same =
        subst
          (Holds (λ xs. (b : ℕ) → (if t == b then 1 else 0) + count b xs ≡ count b (held s.phase)))
          h (joins-held params time s.phase t) in
      grind (links, i a, same a, e)
  Step-Accounted {s} (moves before after l e c same heard h) i a = grind (links, same, i a)
  Step-Accounted {s} (ends before after l e same heard h) i a = grind (links, same, i a)
  Step-Accounted {s} (cancelled before after l same h) i a = grind (links, same, i a)

pub Reach-Accounted :
    {params : ServerParams} {delay now : ℕ} {s : System} → Reach params delay now s → Accounted s
unfolding start
Reach-Accounted (begun now) = λ a. refl
Reach-Accounted (later time r order prompt st) = Step-Accounted _ time st (Reach-Accounted r)

none_counted : (xs : List ℕ) → ((a : ℕ) → count a xs ≡ 0) → xs ≡ []
none_counted [] h = refl
none_counted (x ∷ xs) h = absurd (ground (arith, h x, ==_refl x))

ids-nil : (ls : List Link) → ids ls ≡ [] → ls ≡ []
ids-nil [] h = refl
ids-nil (l ∷ ls) h = cc

-- The server waits for exactly the tasks that run or have ended and are not joined, each once; so
-- when it has returned, no connection is open and every task has been joined.
pub returned_alone :
    {params : ServerParams} {delay now : ℕ} {s : System}
    → Reach params delay now s
    → Accounted s
      × ((state : AppState) → s.phase ≡ returned state → (s.links ≡ []) × (s.ended ≡ []))
returned_alone {s} r =
    let i = Reach-Accounted r in
    (
      i,
      λ state at_end.
          let none_held = λ (a : ℕ). ap (λ p. count a (held p)) at_end in
          (
            ids-nil s.links (none_counted (ids s.links) (λ a. omega (arith, i a, none_held a))),
            none_counted s.ended (λ a. omega (arith, i a, none_held a)),
          ),
    )
