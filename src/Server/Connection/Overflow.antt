-- ===== src/Server/Connection/Overflow.antt =====
-- `serve_connection` of src/server/accept.rs with the overflow of `Instant::now() + timeout`, which
-- panics where the sum is a time that an `Instant` cannot hold: `limit` is the first such time.
use tiny_httpd.Base.{
  ℕ, suc, ◌+◌, ◌≤◌, ◌<◌, ◌≡◌, ◌↔◌, refl, subst, sym, Bool-cases, inl, inr, true, false, Option,
  none, some, if◌then◌else◌, ltb, ok, err, arith,
}
use tiny_httpd.Server.Params.{ServerParams}
use tiny_httpd.Server.Connection.{
  Connection, Event, finished, deadline_elapsed, shutdown_changed, activity, Flow, continues, broke,
  begin_graceful, on_event,
}

-- A panic ends the task, which drops the connection.
pub data Outcome : Type 0 where
  flows : Flow → Outcome
  panicked : Outcome

-- `Instant::now() + timeout` for the new deadline.
abbrev pub reset_deadline : ℕ → ℕ → ℕ → Connection → Outcome
reset_deadline limit now timeout c =
    if ltb (now + timeout) limit
    then flows (continues (record c { deadline = now + timeout }))
    else panicked

continues_inj : {c d : Connection} → some (continues c) ≡ some (continues d) → c ≡ d
continues_inj e = cc

module _ (limit : ℕ) (params : ServerParams) (now : ℕ) where
  -- `graceful_shutdown()`, the flag, and the new deadline.
  abbrev pub start_closing : Connection → Outcome
  start_closing c =
      reset_deadline limit now params.graceful_close_timeout
        (record c { shutting_down = true; graceful_calls = suc c.graceful_calls })

  -- One round of the loop.
  unfoldable pub checked_event : Connection → Event → Option Outcome
  checked_event c (finished result) = some (flows broke)
  checked_event c deadline_elapsed =
      if ltb now c.deadline
      then none
      else if c.shutting_down
      then some (flows broke)
      else some (start_closing c)
  checked_event c (shutdown_changed (ok requested)) =
      if c.shutting_down
      then none
      else if requested
      then some (start_closing c)
      else some (flows (continues c))
  checked_event c (shutdown_changed (err closed)) =
      if c.shutting_down then none else some (start_closing c)
  checked_event c activity =
      if c.shutting_down
      then none
      else some (reset_deadline limit now params.idle_connection_timeout c)

  -- A round of the loop on unbounded times, where its deadline is too late.
  abbrev pub cut_at : Option Flow → Option Outcome
  cut_at none = none
  cut_at (some broke) = some (flows broke)
  cut_at (some (continues c)) =
      if ltb c.deadline limit then some (flows (continues c)) else some panicked

  checked_event_lem :
      (c : Connection) (e : Event)
      → c.deadline < limit
      → checked_event c e ≡ cut_at (on_event params now c e)
  unfolding checked_event on_event begin_graceful
  checked_event_lem c (finished result) due = refl
  checked_event_lem c deadline_elapsed due = ground arith
  checked_event_lem c (shutdown_changed (ok requested)) due = ground arith
  checked_event_lem c (shutdown_changed (err closed)) due = ground arith
  checked_event_lem c activity due = ground arith

  cut_at-eq-panicked :
      (o : Option Flow)
      → (cut_at o ≡ some panicked)
        ↔ ((c' : Connection) × (o ≡ some (continues c')) × (limit ≤ c'.deadline))
  cut_at-eq-panicked none = ((λ h. cc), (λ (c', same, late). cc))
  cut_at-eq-panicked (some broke) = ((λ h. cc), (λ (c', same, late). cc))
  cut_at-eq-panicked (some (continues c)) = (
    (λ h. (c, refl, ground (arith, h))),
    (λ (c', same, late).
        let late_too : limit ≤ c.deadline =
          subst (λ (d : Connection). limit ≤ d.deadline) (sym (continues_inj same)) late in
        ground (arith, late_too)),
  )

  cut_at-continues :
      (o : Option Flow) (c' : Connection)
      → cut_at o ≡ some (flows (continues c'))
      → (o ≡ some (continues c')) × (c'.deadline < limit)
  cut_at-continues none c' h = cc
  cut_at-continues (some broke) c' h = cc
  cut_at-continues (some (continues c)) c' h = elim (Bool-cases (ltb c.deadline limit)) [
    | inl fits ↦
        let same : c ≡ c' = cc (rw fits at h) in
        (cc same, subst (λ (d : Connection). d.deadline < limit) same (ground (arith, fits)))
    | inr late ↦ cc (rw late at h)
  ]

  activity_panics :
      (c : Connection)
      → c.shutting_down ≡ false
      → limit ≤ now + params.idle_connection_timeout
      → checked_event c activity ≡ some panicked
  unfolding checked_event
  activity_panics c is_open late = ground (arith, is_open, late)

  -- A round of a connection whose deadline an `Instant` can hold panics exactly when it would set a
  -- deadline that an `Instant` cannot hold; a round that goes on is that of the loop on unbounded
  -- times, and leaves a deadline that can be held. So bytes that move end an open connection whose
  -- idle timeout reaches beyond all instants.
  pub checked_event_iff :
      (c : Connection) (e : Event)
      → c.deadline < limit
      → ((checked_event c e ≡ some panicked) ↔ (
          (c' : Connection) × (on_event params now c e ≡ some (continues c'))
          × (limit ≤ c'.deadline)))
        × ((c' : Connection)
            → checked_event c e ≡ some (flows (continues c'))
            → (on_event params now c e ≡ some (continues c')) × (c'.deadline < limit))
        × (c.shutting_down ≡ false
            → limit ≤ now + params.idle_connection_timeout
            → checked_event c activity ≡ some panicked)
  checked_event_iff c e due = (
    rw (checked_event_lem c e due) (cut_at-eq-panicked (on_event params now c e)),
    (λ c' h. cut_at-continues (on_event params now c e) c' (rw (checked_event_lem c e due) at h)),
    activity_panics c,
  )
