-- ===== src/Server/System/Returns.antt =====
-- The drain of src/server/accept.rs comes to its end.
use tiny_httpd.Base.{
  ℕ, ◌+◌, ◌≤◌, ◌≡◌, ◌≢◌, refl, Option, none, some, List, [], ◌∷◌, All, All-imp, ==_refl, ap, ◌∙◌,
  sym, arith, subst, length,
}
use tiny_httpd.Server.Params.{ServerParams}
use tiny_httpd.Server.Connection.Deadline.{closing_soon}
use tiny_httpd.Server.Accept.{
  Phase, Draining, accepting, draining, returned, joined, server_event, drained, settle, remove,
}
use tiny_httpd.Server.Accept.Drain.{joined_lem}
use tiny_httpd.Server.Accept.AnyOrder.{
  SameTasks, SameTasks-nil, count-remove, holds_counted, drained_more,
}
use tiny_httpd.Server.Accept.Shutdown.{phase_state}
use tiny_httpd.Server.System.{Link, System, joins, Reach}
use tiny_httpd.Server.System.Members.{Reach-Accounted}
use tiny_httpd.Server.System.Runs.{LinkRun, Reach-Runs}
use tiny_httpd.Server.System.Prompt.{Reach-Waits, Reach-IsPrompt}
use tiny_httpd.Server.System.Alone.{
  sys, Alone, stays, goes, Alone-trans, Reach-Alone, opens, IsSoon, tell_each, end_each,
}

abbrev pub IsDraining : Phase → Type 0
IsDraining (draining d) = Unit
IsDraining _ = ⊥

drained-nil : (d : Draining) → d.connections ≡ [] → drained d ≡ returned d.state
unfolding drained settle
drained-nil d none_there = ap (λ cs. settle cs d) none_there

drained-some : (d : Draining) → d.connections ≢ [] → draining d ≡ drained d
unfolding drained settle
drained-some d some_there = go d.connections some_there
  where
    go : (cs : List ℕ) → cs ≢ [] → draining d ≡ settle cs d
    go [] h = absurd (h refl)
    go (c ∷ cs) h = refl

module _ (params : ServerParams) (delay : ℕ) where
  -- The tasks that have ended are joined.
  join_each :
      (now : ℕ) (broadcast : Option ℕ) (es : List ℕ) (d : Draining)
      → SameTasks es d.connections
      → Alone params delay now
          (sys (drained d) [] es broadcast)
          now
          (sys (returned d.state) [] [] broadcast)
  unfolding server_event
  join_each now broadcast [] d same =
      subst
        (λ p. Alone params delay now (sys (drained d) [] [] broadcast) now (sys p [] [] broadcast))
        (drained-nil d (SameTasks-nil d.connections same)) stays
  join_each now broadcast (t ∷ es) d same =
      let held = holds_counted t d.connections (ground (arith, same t, ==_refl t)) in
      let fewer : Draining = record d { connections = remove t d.connections } in
      let step : server_event params now (drained d) (joined t) ≡ some (drained fewer) =
        ap (λ p. server_event params now p (joined t)) (drained_more t d held)
        ∙ joined_lem now t d held in
      goes now (omega arith) tt (joins [] es t (drained fewer) refl step) tt (
        join_each now broadcast es fewer
          (λ a. omega (arith, same a, count-remove a t d.connections held)))

  closing_links :
      (now : ℕ) (ls : List Link)
      → All (LinkRun params now) ls
      → All (IsSoon (now + params.graceful_close_timeout)) ls
  closing_links now ls =
      All-imp (LinkRun params now) (IsSoon (now + params.graceful_close_timeout)) ls
        (λ l (o, last, closed, at, r, by) closing. omega (arith, closing_soon r closing, by))

  returns_from :
      (now : ℕ) (p : Phase) (ls : List Link) (es : List ℕ) (broadcast : Option ℕ)
      → Reach params delay now (sys p ls es broadcast)
      → IsDraining p
      → (end : ℕ) × (end ≤ now + params.graceful_close_timeout)
        × Alone params delay now
            (sys p ls es broadcast)
            end
            (sys (returned (phase_state p)) [] [] broadcast)
  returns_from now (accepting a) ls es broadcast r q = elim q [ ]
  returns_from now (returned state) ls es broadcast r q = elim q [ ]
  returns_from now (draining d) ls es none r q = let ((b, sent), some_left) = Reach-Waits r in cc
  returns_from now (draining d) ls es (some b) r q =
      let limit = now + params.graceful_close_timeout in
      let (ls', a, done, between) =
        tell_each params delay (draining d) b now (opens ls) es ls refl (Reach-IsPrompt r)
          (closing_links now ls (Reach-Runs r).1) in
      let (end, es', in_time, a') =
        end_each params delay (draining d) b (length ls') now limit es ls' refl done (omega arith)
          between in
      let alone = Alone-trans a a' in
      let counted = Reach-Accounted (Reach-Alone r alone) in
      let joined_all = join_each end (some b) es' d (λ a. omega (arith, counted a)) in
      (
        end,
        in_time,
        Alone-trans alone (
            subst
              (λ p.
                Alone params delay end (sys p [] es' (some b)) end
                  (sys (returned d.state) [] [] (some b)))
              (sym (drained-some d (Reach-Waits r).1)) joined_all),
      )

-- From any point of the drain there is a run to its end that asks nothing of the peers and is over
-- within the graceful-close timeout: its steps are notices of the shutdown, timers of the connections
-- that elapse in time, and joins. At its end the server has returned, no connection is open, every
-- task has been joined, and the marks are as they were.
pub drain_returns :
    {params : ServerParams} {delay now : ℕ} {s : System}
    → Reach params delay now s
    → IsDraining s.phase
    → (end : ℕ) × (end ≤ now + params.graceful_close_timeout)
      × Alone params delay now s end
          (record s { phase = returned (phase_state s.phase); links = []; ended = [] })
drain_returns {params} {delay} {now} {s} r q =
    returns_from params delay now s.phase s.links s.ended s.broadcast r q
