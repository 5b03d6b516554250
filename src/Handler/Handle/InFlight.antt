-- ===== src/Handler/Handle/InFlight.antt =====
-- Requests that overlap: the gauge of src/metrics.rs under `handle_with_peer_addr`, for every
-- order in which requests begin, complete and are abandoned.
use tiny_httpd.Base.{
  ℕ, suc, ◌+◌, ◌≡◌, refl, append_assoc, false, List, [], ◌∷◌, ◌++◌, arith, length, All, All-middle,
  length-middle, subst, ap, ◌∙◌,
}
use tiny_httpd.Metrics.{
  Log, in_flight_up, in_flight_down, requests_add, duration_record, response_body_size_record,
  Attributes, status_class, InFlightRequestGuard, request_started,
}
use tiny_httpd.Metrics.Guard.{ups, downs, ups-append, downs-append}
use tiny_httpd.Handler.Http.{Method, method_name}
use tiny_httpd.Handler.Response.{ResponseOutcome}
use tiny_httpd.Handler.Handle.{complete, abandon}

-- How many requests were counted as completed.
unfoldable pub counted : Log → ℕ
counted [] = 0
counted (requests_add _ ∷ log) = suc (counted log)
counted (_ ∷ log) = counted log

counted-append : (s t : Log) → counted (s ++ t) ≡ counted s + counted t
unfolding counted
counted-append [] t = omega arith
counted-append (requests_add _ ∷ s) t = omega (arith, counted-append s t)
counted-append (_ ∷ s) t = counted-append s t

-- The requests that wait in `route`, by their guards, and what has become of the others.
pub record Server : Type 0 where
  pub waiting : List InFlightRequestGuard
  pub log : Log
  pub completed : ℕ

module _ (File : Type 0) where
  -- A request begins; or one of those that wait completes or is dropped, at any place.
  pub data Step (s : Server) : Server → Type 0 where
    begins : Step s (record {
      waiting = (request_started s.log).0 ∷ s.waiting;
      log = (request_started s.log).1;
      completed = s.completed;
    })
    completes :
        (before after : List InFlightRequestGuard) (guard : InFlightRequestGuard) (method : Method)
        (outcome : ResponseOutcome File) (elapsed : ℕ)
        → s.waiting ≡ before ++ guard ∷ after
        → Step s (record {
          waiting = before ++ after;
          log = complete guard method outcome elapsed s.log;
          completed = s.completed + 1;
        })
    abandoned :
        (before after : List InFlightRequestGuard) (guard : InFlightRequestGuard)
        → s.waiting ≡ before ++ guard ∷ after
        → Step s (record {
          waiting = before ++ after;
          log = abandon guard s.log;
          completed = s.completed;
        })

  pub data Reach : Server → Type 0 where
    start : Reach (record { waiting = []; log = []; completed = 0 })
    later : {s t : Server} → Reach s → Step s t → Reach t

abbrev pub Fresh : InFlightRequestGuard → Type 0
Fresh g = g.finished ≡ false

-- Each request that waits has moved the gauge up and not yet down.
pub record Inv (s : Server) : Type 0 where
  pub fresh : All Fresh s.waiting
  pub gauge : ups s.log ≡ downs s.log + length s.waiting
  pub count : counted s.log ≡ s.completed

-- What a completed request records.
abbrev pub completion : Attributes → ℕ → ℕ → Log
completion a elapsed size =
    in_flight_down
    ∷ requests_add a
    ∷ duration_record elapsed a
    ∷ response_body_size_record size a
    ∷ []

abbrev attributes_of : {File : Type 0} → Method → ResponseOutcome File → Attributes
attributes_of m o = record {
  request_method = method_name m;
  status_class = status_class o.response.status;
}

pub complete_lem :
    {File : Type 0} (g : InFlightRequestGuard) (m : Method) (o : ResponseOutcome File) (elapsed : ℕ)
    (log : Log)
    → g.finished ≡ false
    → complete g m o elapsed log ≡ log ++ completion (attributes_of m o) elapsed o.body_size
unfolding complete
complete_lem g m o elapsed log h = rw h (append_assoc log (in_flight_down ∷ []) _)

abandon_lem :
    (g : InFlightRequestGuard) (log : Log)
    → g.finished ≡ false
    → abandon g log ≡ log ++ in_flight_down ∷ []
unfolding abandon
abandon_lem g log h = rw h

-- The three readings of a log that grows at its end.
readings :
    (log more : Log)
    → (ups (log ++ more) ≡ ups log + ups more)
      × (downs (log ++ more) ≡ downs log + downs more)
      × (counted (log ++ more) ≡ counted log + counted more)
readings log more = (ups-append log more, downs-append log more, counted-append log more)

-- A guard leaves the list: what is left, and one fewer.
taken :
    {s : Server} (before after : List InFlightRequestGuard) (g : InFlightRequestGuard)
    → s.waiting ≡ before ++ g ∷ after
    → Inv s
    → Fresh g × All Fresh (before ++ after) × (length s.waiting ≡ length (before ++ after) + 1)
taken {s} before after g e i =
    let (own, others) = All-middle Fresh before g after (subst (All Fresh) e i.fresh) in
    (own, others, ap length e ∙ length-middle before g after)

Step-Inv : {File : Type 0} {s t : Server} → Step File s t → Inv s → Inv t
unfolding ups downs counted request_started
Step-Inv {s} begins i = record {
  fresh = (refl, i.fresh);
  gauge = omega (arith, i.gauge, readings s.log (in_flight_up ∷ []));
  count = omega (arith, i.count, readings s.log (in_flight_up ∷ []));
}
Step-Inv {s} (completes before after g m o elapsed e) i =
    let (own, others, fewer) = taken before after g e i in
    let more = completion (attributes_of m o) elapsed o.body_size in
    let same = complete_lem g m o elapsed s.log own in
    record {
      fresh = others;
      gauge = omega (arith, i.gauge, fewer, readings s.log more, ap ups same, ap downs same);
      count = omega (arith, i.count, readings s.log more, ap counted same);
    }
Step-Inv {s} (abandoned before after g e) i =
    let (own, others, fewer) = taken before after g e i in
    let more = in_flight_down ∷ [] in
    let same = abandon_lem g s.log own in
    record {
      fresh = others;
      gauge = omega (arith, i.gauge, fewer, readings s.log more, ap ups same, ap downs same);
      count = omega (arith, i.count, readings s.log more, ap counted same);
    }

Reach-Inv : {File : Type 0} {s : Server} → Reach File s → Inv s
unfolding ups downs counted
Reach-Inv start = record { fresh = tt; gauge = omega arith; count = refl }
Reach-Inv (later r st) = Step-Inv st (Reach-Inv r)

-- However requests overlap, the gauge of requests in flight stands at the number of requests that
-- are being routed, and the counter of requests at the number of those completed; an abandoned
-- request lowers the gauge and is not counted.
pub in_flight_exact :
    {File : Type 0} {s : Server}
    → Reach File s
    → (ups s.log ≡ downs s.log + length s.waiting) × (counted s.log ≡ s.completed)
in_flight_exact r = let i = Reach-Inv r in (i.gauge, i.count)
