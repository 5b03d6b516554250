-- ===== src/Server/Serving.antt =====
-- The system of src/server/accept.rs with the requests that its connections carry, each in
-- `handle_with_peer_addr` of src/handler/routing.rs. With HTTP/1, the protocol that Cargo.toml asks
-- for, `hyper` keeps the future of a request in that of its connection, so it is dropped with it.
pub mod Balanced
use tiny_httpd.Base.{
  ℕ, ◌+◌, ◌≤◌, ◌≡◌, refl, Option, Bool, List, [], ◌∷◌, ◌++◌, Bytes, All, if◌then◌else◌,
}
use tiny_httpd.Fs.System.{FileSystem}
use tiny_httpd.Metrics.{Log, InFlightRequestGuard, request_started}
use tiny_httpd.Handler.Http.{Method, Toolkit}
use tiny_httpd.Handler.State.{AppState}
use tiny_httpd.Handler.Routing.{route}
use tiny_httpd.Handler.Handle.{complete, abandon, handle_with_peer_addr}
use tiny_httpd.Server.Params.{ServerParams}
use tiny_httpd.Server.Accept.{holds}
use tiny_httpd.Server.Accept.Shutdown.{phase_state}
use tiny_httpd.Server.System as Sys
use tiny_httpd.Server.System.{Link, System, IsPrompt}
use tiny_httpd.Server.System.Members.{ids}

-- A request that waits in `route`, with the task that carries it and the state as it was when the
-- handler read the marks, which is before it waits for the first time.
pub record Pending : Type 0 where
  pub task : ℕ
  pub guard : InFlightRequestGuard
  pub state : AppState
  pub method : Method
  pub path : Bytes

-- The log is that of the instruments.
pub record Serving : Type 0 where
  pub system : System
  pub pending : List Pending
  pub log : Log
  pub completed : ℕ

abbrev pub idle : ServerParams → Serving
idle params = record { system = Sys.initial params; pending = []; log = []; completed = 0 }

unfoldable pub begin_request : ℕ → Method → Bytes → Serving → Serving
unfolding request_started
begin_request task method path s =
    let (guard, log) = request_started s.log in
    record s {
      pending =
          record {
            task = task;
            guard = guard;
            state = phase_state s.system.phase;
            method = method;
            path = path;
          }
          ∷ s.pending;
      log = log;
    }

-- The requests of tasks that do not run any more are dropped.
unfoldable pub drop_requests : List ℕ → List Pending → Log → List Pending × Log
unfolding holds abandon
drop_requests running [] log = ([], log)
drop_requests running (r ∷ rs) log =
    let kept = drop_requests running rs log in
    let dropped = drop_requests running rs (abandon r.guard log) in
    if holds r.task running then (r ∷ kept.0, kept.1) else dropped

-- The system has taken a step to `t`.
unfoldable pub advance : System → Serving → Serving
unfolding drop_requests
advance t s =
    let (pending, log) = drop_requests (ids t.links) s.pending s.log in
    record s { system = t; pending = pending; log = log }

module _ {W File : Type 0} (fs : FileSystem W File) (kit : Toolkit File) (page : Bytes) where
  -- `route` answers the request that stands between `before` and `after`.
  unfoldable pub answer_request : List Pending → List Pending → Pending → ℕ → W → Serving → Serving
  unfolding complete route
  answer_request before after r elapsed w s = record s {
    pending = before ++ after;
    log = complete r.guard r.method (route fs kit page r.state r.method r.path w).0 elapsed s.log;
    completed = s.completed + 1;
  }

  -- A request that nothing comes between is what `handle_with_peer_addr` makes of it.
  answer-begin :
      (task elapsed : ℕ) (method : Method) (path : Bytes) (peer_addr : Option Bytes) (w : W)
      (s : Serving)
      → let state = phase_state s.system.phase in
        let guard = (request_started s.log).0 in
        let r : Pending = record {
          task = task;
          guard = guard;
          state = state;
          method = method;
          path = path;
        } in
        (answer_request [] s.pending r elapsed w (begin_request task method path s)).log
        ≡ (handle_with_peer_addr fs kit page state method path peer_addr elapsed w s.log).log
  unfolding answer_request begin_request handle_with_peer_addr
  answer-begin task elapsed method path peer_addr w s = refl

  -- Runs, with the time of the last event of the system. A request comes in on a task that runs. It
  -- is answered once its waits for the file system are over, with the file system as it is by then:
  -- which requests those are, `IsDone`, is given from outside.
  pub data Reach (IsDone : Pending → W → Type 0) (params : ServerParams) (delay : ℕ)
      : ℕ → Serving → Type 0 where
    begun : (now : ℕ) → Reach IsDone params delay now (idle params)
    begins :
        {now : ℕ} {s : Serving} (before after : List Link) (l : Link) (method : Method)
        (path : Bytes)
        → Reach IsDone params delay now s
        → s.system.links ≡ before ++ l ∷ after
        → Reach IsDone params delay now (begin_request l.task method path s)
    answers :
        {now : ℕ} {s : Serving} (before after : List Pending) (r : Pending) (elapsed : ℕ) (w : W)
        → Reach IsDone params delay now s
        → s.pending ≡ before ++ r ∷ after
        → IsDone r w
        → Reach IsDone params delay now (answer_request before after r elapsed w s)
    later :
        {now : ℕ} {s : Serving} (time : ℕ) {t : System}
        → Reach IsDone params delay now s
        → now ≤ time
        → All (IsPrompt delay time s.system.broadcast) s.system.links
        → Sys.Step params time s.system t
        → Reach IsDone params delay time (advance t s)
