-- ===== src/Server/System/Phases.antt =====
-- The accept loop and the drain of src/server/accept.rs, with what they have sent.
use tiny_httpd.Base.{
  ℕ, ◌+◌, ◌<◌, ◌≡◌, ◌≢◌, ◌⊎◌, refl, true, false, Bool-cases, inl, inr, Option, none, some, List, [],
  ◌∷◌, All, ok, err, if◌then◌else◌, leb, leb→le, arith, subst,
}
use tiny_httpd.Server.Params.{ServerParams}
use tiny_httpd.Server.Accept.{
  Phase, Draining, accepting, draining, returned, Event, shutdown_signal, window_elapsed, accepted,
  joined, drain_elapsed, server_event, accept_event, drain_event, drained, settle, holds, remove,
  stop_accepting, on_signal,
}
use tiny_httpd.Server.System.{Link, is_aborted, IsQuiet}
use tiny_httpd.Server.System.Closing.{Good, none_left, over}

module _ (params : ServerParams) (delay : ℕ) where
  -- The drain begins with the broadcast; once its tasks are aborted, none runs.
  abbrev pub PhaseInv : Phase → Option ℕ → List Link → Type 0
  PhaseInv (accepting a) none ls = Unit
  PhaseInv (draining d) (some b) ls =
      (d.drain_deadline ≡ b + params.drain_timeout) × (d.aborted ≡ true → ls ≡ [])
  PhaseInv (returned s) (some b) ls = Unit
  PhaseInv (accepting a) (some b) ls = ⊥
  PhaseInv (draining d) none ls = ⊥
  PhaseInv (returned s) none ls = ⊥

  abbrev pub PhaseInvOption : Option Phase → Option ℕ → List Link → Type 0
  PhaseInvOption none broadcast ls = Unit
  PhaseInvOption (some p) broadcast ls = PhaseInv p broadcast ls

  drained-PhaseInv :
      (d : Draining) (b : ℕ) (ls : List Link)
      → PhaseInv (draining d) (some b) ls
      → PhaseInv (drained d) (some b) ls
  unfolding drained settle
  drained-PhaseInv d b ls i = go d.connections
    where
      go : (cs : List ℕ) → PhaseInv (settle cs d) (some b) ls
      go [] = tt
      go (c ∷ cs) = i

  module _ (short : delay + params.graceful_close_timeout < params.drain_timeout) where
    pub quiet-PhaseInv :
        (p : Phase) (broadcast : Option ℕ) (time : ℕ) (e : Event) (ls : List Link)
        → IsQuiet e
        → All (Good params delay time broadcast) ls
        → PhaseInv p broadcast ls
        → PhaseInvOption (server_event params time p e) broadcast ls
    unfolding server_event drain_event accept_event on_signal
    quiet-PhaseInv (accepting a) (some b) time e ls q good i = elim i [ ]
    quiet-PhaseInv (draining d) none time e ls q good i = elim i [ ]
    quiet-PhaseInv (returned s) broadcast time e ls q good i = tt
    quiet-PhaseInv (accepting a) none time (shutdown_signal r) ls q good i =
        elim a.shutdown_deadline
          as (λ o.
            PhaseInvOption (elim o [ none ↦ some (accepting (on_signal time a)) | some _ ↦ none ])
              none ls) [ none ↦ tt | some t ↦ tt ]
    quiet-PhaseInv (accepting a) none time (accepted (err u)) ls q good i = tt
    quiet-PhaseInv (accepting a) none time drain_elapsed ls q good i = tt
    quiet-PhaseInv (accepting a) none time window_elapsed ls q good i = elim q [ ]
    quiet-PhaseInv (accepting a) none time (accepted (ok u)) ls q good i = elim q [ ]
    quiet-PhaseInv (accepting a) none time (joined t) ls q good i = elim q [ ]
    quiet-PhaseInv (draining d) (some b) time drain_elapsed ls q good (deadline, gone) =
        elim (Bool-cases d.aborted) [
          | inl twice ↦ rw twice tt
          | inr first ↦ elim (Bool-cases (leb d.drain_deadline time)) [
            | inl over ↦
                rw (first, over)
                  (
                    deadline,
                    λ _.
                        none_left params delay time b ls short good
                          (omega (arith, deadline, leb→le _ _ over)),
                  )
            | inr running ↦ rw (first, running) tt
          ]
        ]
    quiet-PhaseInv (draining d) (some b) time (shutdown_signal r) ls q good i = tt
    quiet-PhaseInv (draining d) (some b) time (accepted r) ls q good i = tt
    quiet-PhaseInv (draining d) (some b) time window_elapsed ls q good i = tt
    quiet-PhaseInv (draining d) (some b) time (joined t) ls q good i = elim q [ ]

  pub accepts-PhaseInv :
      (p : Phase) (broadcast : Option ℕ) (time : ℕ) (ls ls' : List Link)
      → PhaseInv p broadcast ls
      → PhaseInvOption (server_event params time p (accepted (ok tt))) broadcast ls'
  unfolding server_event accept_event drain_event
  accepts-PhaseInv (accepting a) none time ls ls' i = tt
  accepts-PhaseInv (accepting a) (some b) time ls ls' i = elim i [ ]
  accepts-PhaseInv (draining d) broadcast time ls ls' i = tt
  accepts-PhaseInv (returned s) broadcast time ls ls' i = tt

  pub broadcasts-PhaseInv :
      (p : Phase) (broadcast : Option ℕ) (time : ℕ) (ls : List Link)
      → PhaseInv p broadcast ls
      → PhaseInvOption (server_event params time p window_elapsed) (some time) ls
  unfolding server_event accept_event drain_event stop_accepting
  broadcasts-PhaseInv (accepting a) broadcast time ls i =
      elim a.shutdown_deadline
        as (λ o.
          PhaseInvOption
            (elim o [
              | none ↦ none
              | some t ↦ if leb t time then some (stop_accepting params time a) else none
            ])
            (some time) ls) [
              | none ↦ tt
              | some t ↦
                  elim (leb t time)
                    as (λ b.
                      PhaseInvOption (if b then some (stop_accepting params time a) else none)
                        (some time) ls) [
                          | true ↦ drained-PhaseInv _ time ls (refl, λ h. cc)
                          | false ↦ tt
                        ]
            ]
  broadcasts-PhaseInv (draining d) broadcast time ls i = tt
  broadcasts-PhaseInv (returned s) broadcast time ls i = tt

  pub joins-PhaseInv :
      (p : Phase) (broadcast : Option ℕ) (time t : ℕ) (ls : List Link)
      → PhaseInv p broadcast ls
      → PhaseInvOption (server_event params time p (joined t)) broadcast ls
  unfolding server_event accept_event drain_event
  joins-PhaseInv (accepting a) broadcast time t ls i = tt
  joins-PhaseInv (returned s) broadcast time t ls i = tt
  joins-PhaseInv (draining d) none time t ls i = elim i [ ]
  joins-PhaseInv (draining d) (some b) time t ls i = elim (Bool-cases (holds t d.connections)) [
    | inl held ↦
        rw held (drained-PhaseInv (record d { connections = remove t d.connections }) b ls i)
    | inr missing ↦ rw missing tt
  ]

  -- While a task runs, its links may change.
  pub running-PhaseInv :
      (p : Phase) (broadcast : Option ℕ) (ls ls' : List Link)
      → ls ≢ []
      → PhaseInv p broadcast ls
      → PhaseInv p broadcast ls'
  running-PhaseInv (accepting a) none ls ls' some_run i = tt
  running-PhaseInv (accepting a) (some b) ls ls' some_run i = i
  running-PhaseInv (draining d) (some b) ls ls' some_run (deadline, gone) =
      (deadline, λ h. absurd (some_run (gone h)))
  running-PhaseInv (draining d) none ls ls' some_run i = i
  running-PhaseInv (returned s) none ls ls' some_run i = i
  running-PhaseInv (returned s) (some b) ls ls' some_run i = tt

  -- Only the accept loop accepts, and only it sends: nothing has been sent before.
  pub unsent :
      (p p' : Phase) (broadcast : Option ℕ) (time : ℕ) (e : Event) (ls : List Link)
      → (e ≡ accepted (ok tt)) ⊎ (e ≡ window_elapsed)
      → PhaseInv p broadcast ls
      → server_event params time p e ≡ some p'
      → broadcast ≡ none
  unfolding server_event drain_event
  unsent (accepting a) p' none time e ls which i h = refl
  unsent (accepting a) p' (some b) time e ls which i h = elim i [ ]
  unsent (draining d) p' broadcast time e ls (inl same) i h =
      absurd (cc (subst (λ x. drain_event time d x ≡ some p') same h))
  unsent (draining d) p' broadcast time e ls (inr same) i h =
      absurd (cc (subst (λ x. drain_event time d x ≡ some p') same h))
  unsent (returned s) p' broadcast time e ls which i h = absurd (cc h)

  pub aborted-PhaseInv :
      (p : Phase) (broadcast : Option ℕ) (ls : List Link)
      → PhaseInv p broadcast ls
      → is_aborted p ≡ true
      → ls ≡ []
  aborted-PhaseInv (accepting a) broadcast ls i h = cc
  aborted-PhaseInv (returned s) broadcast ls i h = cc
  aborted-PhaseInv (draining d) none ls i h = elim i [ ]
  aborted-PhaseInv (draining d) (some b) ls i h = i.1 h
