-- ===== src/Tests/Serving.antt =====
-- src/server/accept.rs with one request that is begun before the shutdown and waits through it.
use tiny_httpd.Base.{◌+◌, ◌≡◌, refl, true, false, none, [], ◌∷◌, Bytes, codes, ok, arith, All}
use tiny_httpd.Metrics.{in_flight_up}
use tiny_httpd.Metrics.Guard.{ups, downs}
use tiny_httpd.Handler.Http.{get}
use tiny_httpd.Handler.State.{AppState, new}
use tiny_httpd.Handler.Handle.InFlight.{counted}
use tiny_httpd.Server.Params.{default_params}
use tiny_httpd.Server.Connection as Conn
use tiny_httpd.Server.Accept.{accepting, draining, returned, shutdown_signal, start, server_event}
use tiny_httpd.Server.System.{accepts, quiet, broadcasts, moves}
use tiny_httpd.Server.System.Members.{ids}
use tiny_httpd.Server.Serving.{
  Pending, Serving, begin_request, advance, Reach, begun, begins, later,
}
use tiny_httpd.Server.Serving.Balanced.{IsCarried, serving_balanced}
use tiny_httpd.Tests.Site.{disk, kit}
use tiny_httpd.Tests.System.{one_accepted, signalled, drain, open_link, closing_link, told}

abbrev page : Bytes
page = codes "<html>"

abbrev docs_request : Pending
docs_request = record {
  task = 0;
  guard = record { finished = false };
  state = new none;
  method = get;
  path = codes "/docs";
}

abbrev waiting : Serving
waiting = record {
  system = told;
  pending = docs_request ∷ [];
  log = in_flight_up ∷ [];
  completed = 0;
}

waiting_run : Reach disk kit page (λ r w. Unit) default_params 100 1300 waiting
unfolding start server_event Conn.accept_connection Conn.on_event Conn.begin_graceful begin_request
    advance
waiting_run =
    later 1300
      (later 1250
        (later 1000
          (begins [] [] open_link get (codes "/docs")
            (later 10 (begun 0) (omega arith) tt (accepts (accepting one_accepted) refl)) refl)
          (omega arith) ((omega arith, tt), tt)
          (quiet (shutdown_signal (ok tt)) (accepting signalled) tt refl))
        (omega arith) ((omega arith, tt), tt) (broadcasts (draining drain) refl))
      (omega arith) ((omega arith, λ h. omega arith), tt)
      (moves [] [] open_link (Conn.shutdown_changed (ok true)) closing_link.connection refl refl
        refl)

serving_balanced_example :
    (ups waiting.log ≡ downs waiting.log + 1)
    × (counted waiting.log ≡ 0)
    × All (IsCarried (ids told.links)) waiting.pending
    × ((state : AppState)
        → told.phase ≡ returned state
        → (waiting.pending ≡ []) × (ups waiting.log ≡ downs waiting.log))
serving_balanced_example = serving_balanced disk kit page waiting_run
