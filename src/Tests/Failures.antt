-- ===== src/Tests/Failures.antt =====
-- src/handler/routing.rs and src/server/accept.rs where something goes wrong, at concrete inputs.
use tiny_httpd.Base.{
  ◌+◌, ◌≤◌, ◌<◌, ◌≡◌, ◌↔◌, refl, false, none, some, [], ◌∷◌, Bytes, codes, All, ok, err, arith,
}
use tiny_httpd.Fs.Error.{other}
use tiny_httpd.Handler.Http.{get, number}
use tiny_httpd.Handler.Response.{content_length}
use tiny_httpd.Handler.Response.Frames.{data_frame, boxed, Items, Frames, frames, received}
use tiny_httpd.Handler.Routing.{readyz, route}
use tiny_httpd.Handler.Routing.Measured.{find_header}
use tiny_httpd.Handler.Routing.Valid.{IsValid, route-IsValid, Breaks, route-500_iff}
use tiny_httpd.Handler.Routing.Marks.{
  marked_both, Asked, Reach, started, first_store, second_store, loads, status, IsKept,
  readiness_first,
}
use tiny_httpd.Handler.Routing.CutOff.{file_cut_off}
use tiny_httpd.Handler.Routing.Table.{IsContentPath}
use tiny_httpd.Handler.State.{AppState, new, mark_not_ready, mark_shutting_down}
use tiny_httpd.Server.Params.{default_params}
use tiny_httpd.Server.Connection.{Connection, activity, continues, on_event}
use tiny_httpd.Server.Connection.Overflow.{flows, panicked, checked_event, checked_event_iff}
use tiny_httpd.Tests.Site.{disk, kit, kit-IsLawful, serving}
use tiny_httpd.Tests.Paths.{docs_found}

abbrev page : Bytes
page = codes "<html>"

route-IsValid_example : IsValid (route disk kit page serving get (codes "/docs") tt).0
route-IsValid_example = route-IsValid disk kit kit-IsLawful page serving get (codes "/docs") tt

route-500_iff_example :
    ((route disk kit page serving get (codes "/index.html/") tt).0.response.status ≡ 500)
    ↔ Breaks disk serving get (codes "/index.html/") tt
route-500_iff_example =
    route-500_iff disk kit kit-IsLawful page serving get (codes "/index.html/") tt

docs_content : IsContentPath (codes "/docs")
docs_content = ((λ e. cc), (λ e. cc))

-- The disk fails behind the first byte.
abbrev failing : Bytes → Items
failing file = ok (codes "<") ∷ err (record { kind = other }) ∷ []

file_cut_off_example :
    let response = (route disk kit page serving get (codes "/docs") tt).0.response in
    (response.status ≡ 200)
    × (find_header content_length response.headers ≡ some (number 3))
    × ((more : Frames) × (frames failing response.body
          ≡ ok (data_frame (codes "<")) ∷ err (boxed (record { kind = other })) ∷ more))
    × (received (frames failing response.body) ≡ none)
file_cut_off_example =
    file_cut_off disk failing kit kit-IsLawful page serving tt docs_content refl refl docs_found
      (codes "<" ∷ []) (record { kind = other }) [] refl

-- An open connection, with an idle timeout of a minute and instants up to 100 seconds.
abbrev late_connection : Connection
late_connection = record { shutting_down = false; deadline = 80000; graceful_calls = 0 }

checked_event_iff_example :
    ((checked_event 100000 default_params 50000 late_connection activity ≡ some panicked) ↔ (
      (c' : Connection) × (on_event default_params 50000 late_connection activity
        ≡ some (continues c'))
      × (100000 ≤ c'.deadline)))
    × ((c' : Connection)
        → checked_event 100000 default_params 50000 late_connection activity
          ≡ some (flows (continues c'))
        → (on_event default_params 50000 late_connection activity ≡ some (continues c'))
          × (c'.deadline < 100000))
    × (false ≡ false
        → 100000 ≤ 50000 + 60000
        → checked_event 100000 default_params 50000 late_connection activity ≡ some panicked)
checked_event_iff_example =
    checked_event_iff 100000 default_params 50000 late_connection activity (omega arith)

-- The requests around the shutdown of a server for `/app`.
abbrev up : AppState
up = new (some (codes "/app"))

abbrev down : AppState
down = mark_shutting_down (mark_not_ready up)

abbrev docs_before : Asked
docs_before = record { state = up; method = get; path = codes "/docs" }

abbrev probe_before : Asked
probe_before = record { state = up; method = get; path = readyz }

abbrev probe_between : Asked
probe_between = record { state = mark_not_ready up; method = get; path = readyz }

abbrev docs_behind : Asked
docs_behind = record { state = down; method = get; path = codes "/docs" }

marked_run :
    Reach
      (some (codes "/app"))
      marked_both
      down
      (docs_behind ∷ probe_between ∷ probe_before ∷ docs_before ∷ [])
marked_run = loads get (codes "/docs") (
    second_store
      (loads get readyz (first_store (loads get readyz (loads get (codes "/docs") started)))))

-- The probe passes even if it is answered behind both stores.
probe_passed : status disk kit page probe_before tt ≡ 200
unfolding route disk new
probe_passed = refl

refused_behind :
    (status disk kit page probe_between tt ≡ 503) × (status disk kit page docs_behind tt ≡ 503)
unfolding route disk mark_not_ready mark_shutting_down
refused_behind = (refl, refl)

readiness_first_example : All (IsKept disk kit page) (docs_before ∷ [])
readiness_first_example =
    readiness_first disk kit kit-IsLawful page marked_run (docs_behind ∷ probe_between ∷ [])
      (docs_before ∷ []) probe_before refl (refl, tt, probe_passed)
