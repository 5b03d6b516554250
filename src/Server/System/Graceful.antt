-- ===== src/Server/System/Graceful.antt =====
-- No connection of src/server/accept.rs is open any more when the drain times out.
use tiny_httpd.Base.{
  ℕ, ◌+◌, ◌≤◌, ◌<◌, ◌≡◌, refl, true, inl, inr, none, some, List, [], ◌∷◌, ◌++◌, All, All-imp,
  All-zip, All-middle, All-insert, subst, sym, ◌∙◌, middle-ne-nil,
}
use tiny_httpd.Server.Params.{ServerParams}
use tiny_httpd.Server.Connection.{accept_connection}
use tiny_httpd.Server.Accept.{start}
use tiny_httpd.Server.System.{
  Link, System, new_link, is_aborted, Step, accepts, quiet, broadcasts, joins, moves, ends,
  cancelled, IsPrompt, Reach, begun, later,
}
use tiny_httpd.Server.System.Closing.{Closing, Good, passes, moved, sent, over}
use tiny_httpd.Server.System.Phases.{
  PhaseInv, PhaseInvOption, quiet-PhaseInv, accepts-PhaseInv, broadcasts-PhaseInv, joins-PhaseInv,
  running-PhaseInv, unsent, aborted-PhaseInv,
}

module _ (params : ServerParams) (delay : ℕ) where
  record Inv (now : ℕ) (s : System) : Type 0 where
    pub phase_inv : PhaseInv params delay s.phase s.broadcast s.links
    pub good : All (Good params delay now s.broadcast) s.links

  module _ (short : delay + params.graceful_close_timeout < params.drain_timeout) (now time : ℕ)
      (s : System) (order : now ≤ time) (prompt : All (IsPrompt delay time s.broadcast) s.links)
      (i : Inv now s) where
    kept_now : All (Good params delay time s.broadcast) s.links
    kept_now =
        All-imp _ _ s.links
          (λ l (k, d). passes params delay now time s.broadcast l.connection order k d)
          (All-zip _ _ s.links i.good prompt)

    running :
        (before after : List Link) (l : Link)
        → s.links ≡ before ++ l ∷ after
        → (ls : List Link) → PhaseInv params delay s.phase s.broadcast ls
    running before after l same ls =
        running-PhaseInv params delay s.phase s.broadcast s.links ls
          (λ none_run. middle-ne-nil before l after (sym same ∙ none_run)) i.phase_inv

    fewer :
        (before after : List Link) (l : Link)
        → s.links ≡ before ++ l ∷ after
        → Inv time (record s { links = before ++ after; ended = l.task ∷ s.ended })
    fewer before after l same = record {
      phase_inv = running before after l same _;
      good =
          (All-middle _ before l after
            (subst (All (Good params delay time s.broadcast)) same kept_now)).1;
    }

    Step-Inv : {s' : System} → Step params time s s' → Inv time s'
    unfolding accept_connection
    Step-Inv (accepts p h) =
        let before : s.broadcast ≡ none =
          unsent params delay s.phase p s.broadcast time _ s.links (inl refl) i.phase_inv h in
        record {
          phase_inv =
              subst
                (λ o.
                  PhaseInvOption params delay o s.broadcast
                    (new_link params time s.phase ∷ s.links))
                h (accepts-PhaseInv params delay s.phase s.broadcast time s.links _ i.phase_inv);
          good = (
            subst (λ b. Closing params delay time b (accept_connection params time)) (sym before)
                (λ h. cc),
            kept_now,
          );
        }
    Step-Inv (quiet e p q h) = record {
      phase_inv =
          subst (λ o. PhaseInvOption params delay o s.broadcast s.links) h
            (quiet-PhaseInv params delay short s.phase s.broadcast time e s.links q kept_now
              i.phase_inv);
      good = kept_now;
    }
    Step-Inv (broadcasts p h) =
        let before : s.broadcast ≡ none =
          unsent params delay s.phase p s.broadcast time _ s.links (inr refl) i.phase_inv h in
        record {
          phase_inv =
              subst (λ o. PhaseInvOption params delay o (some time) s.links) h
                (broadcasts-PhaseInv params delay s.phase s.broadcast time s.links i.phase_inv);
          good =
              All-imp _ _ s.links (λ l k. sent params delay time l.connection k)
                (subst (λ b. All (Good params delay time b) s.links) before kept_now);
        }
    Step-Inv (joins before after t p e h) = record {
      phase_inv =
          subst (λ o. PhaseInvOption params delay o s.broadcast s.links) h
            (joins-PhaseInv params delay s.phase s.broadcast time t s.links i.phase_inv);
      good = kept_now;
    }
    Step-Inv (moves before after l e c same heard h) =
        let (own, others) =
          All-middle _ before l after
            (subst (All (Good params delay time s.broadcast)) same kept_now) in
        let (due, told) =
          (All-middle _ before l after
            (subst (All (IsPrompt delay time s.broadcast)) same prompt)).0 in
        record {
          phase_inv = running before after l same _;
          good =
              All-insert _ before (record l { connection = c }) after
                (moved params delay time s.broadcast l.connection c e own told h) others;
        }
    Step-Inv (ends before after l e same heard h) = fewer before after l same
    Step-Inv (cancelled before after l same h) = fewer before after l same

  module _ (short : delay + params.graceful_close_timeout < params.drain_timeout) where
    Reach-Inv : {now : ℕ} {s : System} → Reach params delay now s → Inv now s
    unfolding start
    Reach-Inv (begun now) = record { phase_inv = tt; good = tt }
    Reach-Inv (later {now} {s} time {s'} r order prompt st) =
        Step-Inv short now time s order prompt (Reach-Inv r) st

  -- If the graceful-close timeout, with the delay until the tasks hear of the shutdown, is shorter
  -- than the drain timeout, every connection is closed by itself: none is open later than those two
  -- after the broadcast, and when the remaining tasks are aborted no connection is open. Here timers
  -- are not late, and each task hears of the broadcast within `delay`.
  pub drained_gracefully :
      {now : ℕ} {s : System}
      → delay + params.graceful_close_timeout < params.drain_timeout
      → Reach params delay now s
      → (is_aborted s.phase ≡ true → s.links ≡ [])
        × ((b : ℕ)
            → s.broadcast ≡ some b
            → b + delay + params.graceful_close_timeout < now
            → s.links ≡ [])
  drained_gracefully {now} {s} short r =
      let i = Reach-Inv short r in
      (
        aborted-PhaseInv params delay s.phase s.broadcast s.links i.phase_inv,
        λ b sent_then late.
            over params delay now b s.links
              (subst (λ o. All (Good params delay now o) s.links) sent_then i.good) late,
      )
