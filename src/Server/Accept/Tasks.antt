-- ===== src/Server/Accept/Tasks.antt =====
-- The tasks that `connections` of src/server/accept.rs holds.
use tiny_httpd.Base.{
  ℕ, suc, ◌+◌, ◌<◌, ◌≡◌, refl, true, false, Bool-cases, Option, none, some, List, [], ◌∷◌, ◌==◌,
  if◌then◌else◌, leb, ok, err, arith, length, ap, subst, sym, inl, inr,
}
use native.Mathlib.Nat.{add-zero, zero-add, add_assoc}
use tiny_httpd.Server.Params.{ServerParams}
use tiny_httpd.Server.Accept.{
  Accepting, Draining, Phase, accepting, draining, returned, Event, shutdown_signal, window_elapsed,
  accepted, joined, drain_elapsed, start, remove, holds, settle, drained, on_signal, on_accepted,
  stop_accepting, accept_event, drain_event, server_event,
}

-- Events in the order of their times, each of them taken.
unfoldable pub run : ServerParams → List (ℕ × Event) → Phase → Option Phase
unfolding server_event
run params [] p = some p
run params ((now, e) ∷ es) p = elim (server_event params now p e) [
  | none ↦ none
  | some p' ↦ run params es p'
]

unfoldable pub spawned : Event → ℕ
spawned (accepted (ok _)) = 1
spawned _ = 0

unfoldable pub taken_out : Event → ℕ
taken_out (joined _) = 1
taken_out _ = 0

abbrev pub count : (Event → ℕ) → List (ℕ × Event) → ℕ
count f [] = 0
count f ((now, e) ∷ es) = f e + count f es

pub length-remove :
    (t : ℕ) (xs : List ℕ) → holds t xs ≡ true → suc (length (remove t xs)) ≡ length xs
unfolding remove holds
length-remove t [] h = ground arith
length-remove t (x ∷ xs) h = elim (Bool-cases (x == t)) [
  | inl same ↦ rw same refl
  | inr differs ↦ let rest = length-remove t xs in ground (arith, rest, differs)
]

-- The tasks that a phase holds, by those spawned and those joined so far.
abbrev pub Accounts : Phase → ℕ → ℕ → Type 0
Accounts (accepting a) s j = (j ≡ 0) × (length a.connections ≡ s)
Accounts (draining d) s j = (length d.connections + j ≡ s) × (j < s)
Accounts (returned _) s j = j ≡ s

abbrev AccountsOption : Option Phase → ℕ → ℕ → Type 0
AccountsOption none s j = Unit
AccountsOption (some p) s j = Accounts p s j

drained-Accounts :
    (d : Draining) (s j : ℕ) → length d.connections + j ≡ s → Accounts (drained d) s j
unfolding drained settle
drained-Accounts d s j h = go d.connections refl
  where
    go : (cs : List ℕ) → d.connections ≡ cs → Accounts (settle cs d) s j
    go [] same = omega (arith, h, ap length same)
    go (c ∷ cs) same = (h, omega (arith, h, ap length same))

accept-Accounts :
    (params : ServerParams) (now : ℕ) (a : Accepting) (e : Event) (s j : ℕ)
    → Accounts (accepting a) s j
    → AccountsOption (accept_event params now a e) (s + spawned e) (j + taken_out e)
unfolding accept_event on_signal on_accepted stop_accepting spawned taken_out
accept-Accounts params now a (shutdown_signal r) s j (none_yet, all) =
    elim a.shutdown_deadline
      as (λ o.
        AccountsOption (elim o [ none ↦ some (accepting (on_signal now a)) | some _ ↦ none ])
          (s + 0) (j + 0)) [ none ↦ (omega (arith, none_yet), omega (arith, all)) | some t ↦ tt ]
accept-Accounts params now a window_elapsed s j (none_yet, all) =
    elim a.shutdown_deadline
      as (λ o.
        AccountsOption
          (elim o [
            | none ↦ none
            | some t ↦ if leb t now then some (stop_accepting params now a) else none
          ])
          (s + 0) (j + 0)) [
            | none ↦ tt
            | some t ↦
                elim (leb t now)
                  as (λ b.
                    AccountsOption (if b then some (stop_accepting params now a) else none) (s + 0)
                      (j + 0)) [
                        | true ↦ drained-Accounts _ (s + 0) (j + 0) (omega (arith, none_yet, all))
                        | false ↦ tt
                      ]
          ]
accept-Accounts params now a (accepted (ok u)) s j (none_yet, all) =
    (omega (arith, none_yet), omega (arith, all))
accept-Accounts params now a (accepted (err u)) s j (none_yet, all) =
    (omega (arith, none_yet), omega (arith, all))
accept-Accounts params now a (joined t) s j i = tt
accept-Accounts params now a drain_elapsed s j i = tt

drain-Accounts :
    (now : ℕ) (d : Draining) (e : Event) (s j : ℕ)
    → Accounts (draining d) s j
    → AccountsOption (drain_event now d e) (s + spawned e) (j + taken_out e)
unfolding drain_event spawned taken_out
drain-Accounts now d (shutdown_signal r) s j i = tt
drain-Accounts now d window_elapsed s j i = tt
drain-Accounts now d (accepted r) s j i = tt
drain-Accounts now d (joined t) s j (all, some_left) = elim (Bool-cases (holds t d.connections)) [
  | inl held ↦
      rw held (
        drained-Accounts _ (s + 0) (j + 1) (omega (arith, all, length-remove t d.connections held)))
  | inr missing ↦ rw missing tt
]
drain-Accounts now d drain_elapsed s j (all, some_left) =
    elim d.aborted
      as (λ b.
        AccountsOption
          (if b
            then none
            else if leb d.drain_deadline now
            then some (draining (record d { aborted = true }))
            else none)
          (s + 0) (j + 0)) [
            | true ↦ tt
            | false ↦
                elim (leb d.drain_deadline now)
                  as (λ b.
                    AccountsOption
                      (if b then some (draining (record d { aborted = true })) else none) (s + 0)
                      (j + 0)) [
                        | true ↦ (omega (arith, all), omega (arith, some_left))
                        | false ↦ tt
                      ]
          ]

event-Accounts :
    (params : ServerParams) (now : ℕ) (p : Phase) (e : Event) (s j : ℕ)
    → Accounts p s j
    → AccountsOption (server_event params now p e) (s + spawned e) (j + taken_out e)
unfolding server_event
event-Accounts params now (accepting a) e s j i = accept-Accounts params now a e s j i
event-Accounts params now (draining d) e s j i = drain-Accounts now d e s j i
event-Accounts params now (returned r) e s j i = tt

run-Accounts :
    (params : ServerParams) (es : List (ℕ × Event)) (p : Phase) (s j : ℕ)
    → Accounts p s j
    → AccountsOption (run params es p) (s + count spawned es) (j + count taken_out es)
unfolding run
run-Accounts params [] p s j i = rw (add-zero s, add-zero j) i
run-Accounts params ((now, e) ∷ es) p s j i =
    elim (server_event params now p e)
        as (λ o.
          AccountsOption o (s + spawned e) (j + taken_out e)
          → AccountsOption (elim o [ none ↦ none | some p' ↦ run params es p' ])
              (s + (spawned e + count spawned es)) (j + (taken_out e + count taken_out es))) [
                | none ↦ λ kept. tt
                | some p' ↦ λ kept.
                    rw
                      (
                        sym (add_assoc s (spawned e) (count spawned es)),
                        sym (add_assoc j (taken_out e) (count taken_out es)),
                      )
                      (run-Accounts params es p' (s + spawned e) (j + taken_out e) kept)
              ]
      (event-Accounts params now p e s j i)

-- In every run, as many connections are accepted as tasks are joined or still held. While the
-- server accepts, none is joined: the set holds a task for every connection accepted until then,
-- ended or not. During the drain at least one is left, and when the server returns each task that
-- it ever spawned has been joined.
pub tasks_conserved :
    (params : ServerParams) (es : List (ℕ × Event)) (p : Phase)
    → run params es (start params) ≡ some p
    → Accounts p (count spawned es) (count taken_out es)
unfolding start
tasks_conserved params es p h =
    subst (λ o. AccountsOption o (count spawned es) (count taken_out es)) h
      (rw (sym (zero-add (count spawned es)), sym (zero-add (count taken_out es)))
        (run-Accounts params es (start params) 0 0 (refl, refl)))
