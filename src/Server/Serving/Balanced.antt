-- ===== src/Server/Serving/Balanced.antt =====
-- The gauge of requests in flight over the runs of the whole server.
use tiny_httpd.Base.{
  ℕ, ◌+◌, ◌≡◌, refl, true, Bool-cases, inl, inr, List, [], ◌∷◌, ◌++◌, append_assoc, Bytes, All,
  All-middle, length, arith, ==_refl, ap, subst, sym, ◌∙◌,
}
use tiny_httpd.Fs.System.{FileSystem}
use tiny_httpd.Metrics.{Log, InFlightRequestGuard}
use tiny_httpd.Metrics.Guard.{ups, downs}
use tiny_httpd.Handler.Http.{Toolkit}
use tiny_httpd.Handler.Handle.{complete, abandon}
use tiny_httpd.Handler.Handle.InFlight as InFlight
use tiny_httpd.Handler.Handle.InFlight.{Server, counted, in_flight_exact}
use tiny_httpd.Handler.Routing.{route}
use tiny_httpd.Server.Params.{ServerParams}
use tiny_httpd.Server.Accept.{returned, holds}
use tiny_httpd.Server.System as Sys
use tiny_httpd.Server.System.{Link, System}
use tiny_httpd.Server.System.Members.{ids, returned_alone}
use tiny_httpd.Handler.State.{AppState}
use tiny_httpd.Server.Serving.{
  Pending, Serving, begin_request, drop_requests, advance, answer_request, Reach, begun, begins,
  answers, later,
}

abbrev pub guards : List Pending → List InFlightRequestGuard
guards [] = []
guards (r ∷ rs) = r.guard ∷ guards rs

guards-append : (rs qs : List Pending) → guards (rs ++ qs) ≡ guards rs ++ guards qs
guards-append [] qs = refl
guards-append (r ∷ rs) qs = ap (λ gs. r.guard ∷ gs) (guards-append rs qs)

length-guards : (rs : List Pending) → length (guards rs) ≡ length rs
length-guards [] = refl
length-guards (r ∷ rs) = omega (arith, length-guards rs)

-- The requests alone.
abbrev in_flight : List InFlightRequestGuard → Log → ℕ → Server
in_flight waiting log completed = record { waiting = waiting; log = log; completed = completed }

module _ (File : Type 0) where
  -- Requests are dropped one by one.
  dropped-Reach :
      (running : List ℕ) (front : List InFlightRequestGuard) (rs : List Pending) (log : Log) (n : ℕ)
      → InFlight.Reach File (in_flight (front ++ guards rs) log n)
      → let (rs', log') = drop_requests running rs log in
        InFlight.Reach File (in_flight (front ++ guards rs') log' n)
  unfolding drop_requests
  dropped-Reach running front [] log n reach = reach
  dropped-Reach running front (r ∷ rs) log n reach = elim (Bool-cases (holds r.task running)) [
    | inl runs ↦ rw runs (
        subst (λ gs. InFlight.Reach File (in_flight gs (drop_requests running rs log).1 n))
          (append_assoc front (r.guard ∷ []) (guards (drop_requests running rs log).0))
          (dropped-Reach running (front ++ r.guard ∷ []) rs log n (
            subst (λ gs. InFlight.Reach File (in_flight gs log n))
              (sym (append_assoc front (r.guard ∷ []) (guards rs))) reach)))
    | inr over ↦ rw over (
        dropped-Reach running front rs (abandon r.guard log) n
          (InFlight.later reach (InFlight.abandoned front (guards rs) r.guard refl)))
  ]

-- The tasks that carry requests run.
abbrev pub IsCarried : List ℕ → Pending → Type 0
IsCarried running r = holds r.task running ≡ true

dropped-IsCarried :
    (running : List ℕ) (rs : List Pending) (log : Log)
    → All (IsCarried running) (drop_requests running rs log).0
unfolding drop_requests
dropped-IsCarried running [] log = tt
dropped-IsCarried running (r ∷ rs) log = elim (Bool-cases (holds r.task running)) [
  | inl runs ↦ rw runs (runs, dropped-IsCarried running rs log)
  | inr over ↦ rw over (dropped-IsCarried running rs (abandon r.guard log))
]

holds-ids : (before after : List Link) (l : Link) → holds l.task (ids (before ++ l ∷ after)) ≡ true
unfolding holds
holds-ids [] after l = rw (==_refl l.task) refl
holds-ids (x ∷ before) after l = ground (arith, holds-ids before after l)

none_carried : (rs : List Pending) → All (IsCarried []) rs → rs ≡ []
unfolding holds
none_carried [] h = refl
none_carried (r ∷ rs) h = cc (h.0)

module _ {W File : Type 0} (fs : FileSystem W File) (kit : Toolkit File) (page : Bytes)
    {IsDone : Pending → W → Type 0} {params : ServerParams} {delay : ℕ} where
  pub Reach-System :
      {now : ℕ} {s : Serving}
      → Reach fs kit page IsDone params delay now s
      → Sys.Reach params delay now s.system
  unfolding begin_request answer_request advance
  Reach-System (begun now) = Sys.begun now
  Reach-System (begins before after l method path r e) = Reach-System r
  Reach-System (answers before after q elapsed w r e over) = Reach-System r
  Reach-System (later time r order prompt st) = Sys.later time (Reach-System r) order prompt st

  Reach-InFlight :
      {now : ℕ} {s : Serving}
      → Reach fs kit page IsDone params delay now s
      → InFlight.Reach File (in_flight (guards s.pending) s.log s.completed)
  unfolding begin_request answer_request advance
  Reach-InFlight (begun now) = InFlight.start
  Reach-InFlight (begins before after l method path r e) =
      InFlight.later (Reach-InFlight r) InFlight.begins
  Reach-InFlight (answers {s = s} before after q elapsed w r e over) =
      subst
        (λ gs. InFlight.Reach File (
          in_flight gs
            (complete q.guard q.method (route fs kit page q.state q.method q.path w).0 elapsed
              s.log)
            (s.completed + 1)))
        (sym (guards-append before after))
        (InFlight.later (Reach-InFlight r) (
          InFlight.completes (guards before) (guards after) q.guard q.method
            (route fs kit page q.state q.method q.path w).0 elapsed
            (ap guards e ∙ guards-append before (q ∷ after))))
  Reach-InFlight (later {s = s} time {t = t} r order prompt st) =
      dropped-Reach File (ids t.links) [] s.pending s.log s.completed (Reach-InFlight r)

  Reach-IsCarried :
      {now : ℕ} {s : Serving}
      → Reach fs kit page IsDone params delay now s
      → All (IsCarried (ids s.system.links)) s.pending
  unfolding begin_request answer_request advance
  Reach-IsCarried (begun now) = tt
  Reach-IsCarried (begins before after l method path r e) = (
    subst (λ ls. holds l.task (ids ls) ≡ true) (sym e) (holds-ids before after l),
    Reach-IsCarried r,
  )
  Reach-IsCarried (answers {s = s} before after q elapsed w r e over) =
      (All-middle (IsCarried (ids s.system.links)) before q after
        (subst (All (IsCarried (ids s.system.links))) e (Reach-IsCarried r))).1
  Reach-IsCarried (later {s = s} time {t = t} r order prompt st) =
      dropped-IsCarried (ids t.links) s.pending s.log

  -- No task runs, so no request waits.
  pub pending-nil :
      {now : ℕ} {s : Serving}
      → Reach fs kit page IsDone params delay now s
      → s.system.links ≡ []
      → s.pending ≡ []
  pending-nil {s = s} r none_run =
      none_carried s.pending
        (subst (λ ls. All (IsCarried (ids ls)) s.pending) none_run (Reach-IsCarried r))

  -- Over every run of the server, whichever way its connections and their requests overlap and end,
  -- the gauge of requests in flight stands at the number of requests that wait, each of them on a
  -- connection that is open, and the counter at the number of those answered. When the server has
  -- returned no request waits and the gauge is back where it began.
  pub serving_balanced :
      {now : ℕ} {s : Serving}
      → Reach fs kit page IsDone params delay now s
      → (ups s.log ≡ downs s.log + length s.pending)
        × (counted s.log ≡ s.completed)
        × All (IsCarried (ids s.system.links)) s.pending
        × ((state : AppState)
            → s.system.phase ≡ returned state
            → (s.pending ≡ []) × (ups s.log ≡ downs s.log))
  serving_balanced {s = s} r =
      let (gauge, count) = in_flight_exact (Reach-InFlight r) in
      let level : ups s.log ≡ downs s.log + length s.pending =
        omega (arith, gauge, length-guards s.pending) in
      (
        level,
        count,
        Reach-IsCarried r,
        λ state at_end.
            let none_waits = pending-nil r ((returned_alone (Reach-System r)).1 state at_end).0 in
            (none_waits, omega (arith, level, ap length none_waits)),
      )
