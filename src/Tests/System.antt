-- ===== src/Tests/System.antt =====
-- src/server/accept.rs with one connection: it is accepted, told of the shutdown, closed and joined.
use tiny_httpd.Base.{◌≤◌, ℕ, ◌+◌, ◌<◌, ◌≡◌, refl, true, false, some, none, [], ◌∷◌, ok, arith}
use tiny_httpd.Handler.State.{AppState, new}
use tiny_httpd.Server.Params.{default_params}
use tiny_httpd.Server.Connection as Conn
use tiny_httpd.Server.Accept.{
  Accepting, Draining, accepting, draining, returned, shutdown_signal, start, server_event,
}
use tiny_httpd.Server.Accept.Shutdown.{marked}
use tiny_httpd.Server.System.{
  Link, System, is_aborted, Reach, begun, later, accepts, quiet, broadcasts, joins, moves, ends,
}
use tiny_httpd.Server.System.Graceful.{drained_gracefully}
use tiny_httpd.Server.System.Members.{Accounted, returned_alone}
use tiny_httpd.Server.System.Spec.{Move}
use tiny_httpd.Server.System.Refines.{view, system_refines}
use tiny_httpd.Server.System.Alone.{Alone}
use tiny_httpd.Server.System.Returns.{drain_returns}

abbrev pub one_accepted : Accepting
one_accepted = record {
  state = new none;
  shutdown_deadline = none;
  connections = 0 ∷ [];
  next_task = 1;
}

abbrev pub signalled : Accepting
signalled = record one_accepted { state = marked default_params; shutdown_deadline = some 1250 }

abbrev pub drain : Draining
drain = record {
  state = marked default_params;
  connections = 0 ∷ [];
  drain_deadline = 11250;
  aborted = false;
}

abbrev pub open_link : Link
open_link = record {
  task = 0;
  connection = record { shutting_down = false; deadline = 60010; graceful_calls = 0 };
}

abbrev pub closing_link : Link
closing_link = record open_link {
  connection = record { shutting_down = true; deadline = 6300; graceful_calls = 1 };
}

-- The task has heard of the shutdown, 50 milliseconds after the broadcast.
abbrev pub told : System
told = record {
  phase = draining drain;
  links = closing_link ∷ [];
  ended = [];
  broadcast = some 1250;
}

told_run : Reach default_params 100 1300 told
unfolding start server_event Conn.accept_connection Conn.on_event Conn.begin_graceful
told_run =
    later 1300
      (later 1250
        (later 1000 (later 10 (begun 0) (omega arith) tt (accepts (accepting one_accepted) refl))
          (omega arith) ((omega arith, tt), tt)
          (quiet (shutdown_signal (ok tt)) (accepting signalled) tt refl))
        (omega arith) ((omega arith, tt), tt) (broadcasts (draining drain) refl))
      (omega arith) ((omega arith, λ h. omega arith), tt)
      (moves [] [] open_link (Conn.shutdown_changed (ok true)) closing_link.connection refl refl
        refl)

abbrev alone : System
alone = record {
  phase = returned (marked default_params);
  links = [];
  ended = [];
  broadcast = some 1250;
}

alone_run : Reach default_params 100 2000 alone
unfolding server_event Conn.on_event
alone_run =
    later 2000
      (later 2000 told_run (omega arith) ((omega arith, λ h. cc), tt)
        (ends [] [] closing_link (Conn.finished true) refl tt refl))
      (omega arith) tt (joins [] [] 0 (returned (marked default_params)) refl refl)

drained_gracefully_example :
    (is_aborted (draining drain) ≡ true → closing_link ∷ [] ≡ [])
    × ((b : ℕ) → some 1250 ≡ some b → b + 100 + 5000 < 1300 → closing_link ∷ [] ≡ [])
drained_gracefully_example = drained_gracefully default_params 100 (omega arith) told_run

returned_alone_example :
    Accounted alone
    × ((state : AppState) → alone.phase ≡ returned state → (alone.links ≡ []) × (alone.ended ≡ []))
returned_alone_example = returned_alone alone_run

drain_returns_example :
    (end : ℕ) × (end ≤ 1300 + 5000) × Alone default_params 100 1300 told end alone
drain_returns_example = drain_returns told_run tt

-- The connection is done.
abbrev over : System
over = record told { links = []; ended = 0 ∷ [] }

system_refines_example : Move 2000 (view told) (view over)
unfolding Conn.on_event
system_refines_example =
    system_refines told_run 2000 (omega arith) ((omega arith, λ h. cc), tt)
      (ends [] [] closing_link (Conn.finished true) refl tt refl)
