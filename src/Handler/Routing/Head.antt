-- ===== src/Handler/Routing/Head.antt =====
-- `HEAD` beside `GET` in src/handler/.
use tiny_httpd.Base.{
  ℕ, ◌≡◌, ◌≢◌, ◌⊎◌, refl, true, false, not, Option, none, some, List, [], Bytes, bytes_eq, codes,
  length, arith, Result, ok, err, if_keeps₂, inl, inr,
}
use tiny_httpd.Fs.Error.{ResolveError, not_found}
use tiny_httpd.Fs.System.{FileSystem}
use tiny_httpd.Fs.Resolve.{ResolvedFile, resolve_file}
use tiny_httpd.Handler.Http.{
  IsStatus, get, head, Header, Body, empty, full, stream, Toolkit, IsLawful,
}
use tiny_httpd.Handler.State.{AppState}
use tiny_httpd.Handler.Response.{
  ResponseOutcome, text_response, plain_text, resolved_response, file_outcome, file_response,
  default_index_outcome,
}
use tiny_httpd.Handler.Response.Built.{
  built, text_response_lem, default_index_outcome_lem, resolved_response_lem,
}
use tiny_httpd.Handler.Routing.{
  livez, readyz, root_path, not_ready, ok_text, ready_text, not_found_text, probe_response,
  map_file_error, fallback_default_response, is_readable, readiness, respond, serve_content, route,
}
use tiny_httpd.Handler.Routing.Shape.{
  probe_response_lem, map_file_error_lem, error_status, error_text,
}

-- The second outcome answers `HEAD` where the first answers `GET`.
pub record SameHead {File : Type 0} (g h : ResponseOutcome File) : Type 0 where
  pub status : h.response.status ≡ g.response.status
  pub headers : h.response.headers ≡ g.response.headers
  pub size : h.body_size ≡ g.body_size
  pub body : (h.response.body ≡ empty) ⊎ (h.response.body ≡ g.response.body)
  pub quiet : h.response.status ≡ 200 → h.response.body ≡ empty

same-empty :
    {File : Type 0} (status : ℕ) (media : Bytes) (size : ℕ) (more : List Header) (body : Body File)
    → SameHead (built status media size more body) (built status media size more empty)
same-empty status media size more body = record {
  status = refl;
  headers = refl;
  size = refl;
  body = inl refl;
  quiet = λ _. refl;
}

same_self :
    {File : Type 0} (status : ℕ) (media : Bytes) (size : ℕ) (more : List Header) (body : Body File)
    → status ≢ 200
    → SameHead (built status media size more body) (built status media size more body)
same_self status media size more body h = record {
  status = refl;
  headers = refl;
  size = refl;
  body = inr refl;
  quiet = λ e. absurd (h e);
}

module _ {File : Type 0} (kit : Toolkit File) (law : IsLawful kit) where
  probe-SameHead :
      (status : ℕ) (body : Bytes)
      → IsStatus status
      → SameHead (probe_response kit false status body) (probe_response kit true status body)
  probe-SameHead status body valid =
      rw
        (
          probe_response_lem kit law false status body valid,
          probe_response_lem kit law true status body valid,
        )
        (same-empty status plain_text (length body) [] (full body))

  text-SameHead :
      (status : ℕ) (body : Bytes)
      → IsStatus status
      → status ≢ 200
      → SameHead (text_response kit status body) (text_response kit status body)
  text-SameHead status body valid ne =
      rw (text_response_lem kit law status body valid)
        (same_self status plain_text (length body) [] (full body) ne)

  page-SameHead :
      (page : Bytes)
      → SameHead (default_index_outcome kit page false) (default_index_outcome kit page true)
  page-SameHead page =
      rw (default_index_outcome_lem kit law page false, default_index_outcome_lem kit law page true)
        (same-empty 200 (codes "text/html; charset=utf-8") (length page) [] (full page))

  error_status-ne : (e : ResolveError) → error_status e ≢ 200
  unfolding error_status
  error_status-ne e = ground arith

  error-SameHead : (e : ResolveError) → SameHead (map_file_error kit e) (map_file_error kit e)
  error-SameHead e = rw (map_file_error_lem kit law e) (
      same_self (error_status e) plain_text (length (error_text e)) [] (full (error_text e))
        (error_status-ne e))

  file-SameHead :
      (r : ResolvedFile File)
      → SameHead (resolved_response kit r false) (resolved_response kit r true)
  file-SameHead r =
      rw (resolved_response_lem kit law r false, resolved_response_lem kit law r true)
        (same-empty 200 (kit.mime r.canonical_path) r.content_length [] (stream r.file))

  respond-SameHead :
      (page path : Bytes) (r : Result ResolveError (ResolvedFile File))
      → SameHead
          (respond kit page path false (file_outcome kit r false))
          (respond kit page path true (file_outcome kit r true))
  unfolding respond file_outcome
  respond-SameHead page path (ok r) = file-SameHead r
  respond-SameHead page path (err not_found) =
      if_keeps₂ SameHead (bytes_eq path root_path) (λ _. page-SameHead page)
        (λ _. error-SameHead not_found)
  respond-SameHead page path (err e) = error-SameHead e

  module _ {W : Type 0} (fs : FileSystem W File) (page : Bytes) where
    -- The same answer, and the same file system behind it.
    abbrev Alike : ResponseOutcome File × W → ResponseOutcome File × W → Type 0
    Alike g h = SameHead g.0 h.0 × (h.1 ≡ g.1)

    readiness-Alike :
        (state : AppState) (w : W)
        → Alike (readiness fs kit page state get w) (readiness fs kit page state head w)
    unfolding readiness
    readiness-Alike state w =
        if_keeps₂ Alike (not state.ready) (λ _. (probe-SameHead 503 not_ready refl, refl))
          (λ _.
            if_keeps₂ Alike (is_readable fs state.content_root w).0
              (λ _. (probe-SameHead 200 ready_text refl, refl))
              (λ _. (probe-SameHead 503 not_ready refl, refl)))

    serve-Alike :
        (root : Option Bytes) (path : Bytes) (w : W)
        → Alike
            (serve_content fs kit page root path false w)
            (serve_content fs kit page root path true w)
    unfolding serve_content fallback_default_response file_response
    serve-Alike none path w = (
      if_keeps₂ SameHead (bytes_eq path root_path) (λ _. page-SameHead page)
          (λ _. text-SameHead 404 not_found_text refl (omega arith)),
      refl,
    )
    serve-Alike (some root) path w =
        (respond-SameHead page path (resolve_file fs root path w).0, refl)

    -- `HEAD` gets the status, the headers and the recorded size of `GET` on every path and in
    -- every state, after the same calls of the file system; a `200` to `HEAD` has no body, and
    -- any other has none or that of `GET`. The response builder keeps its documented contract.
    pub route-head :
        (state : AppState) (path : Bytes) (w : W)
        → SameHead (route fs kit page state get path w).0 (route fs kit page state head path w).0
          × ((route fs kit page state head path w).1 ≡ (route fs kit page state get path w).1)
    unfolding route
    route-head state path w =
        if_keeps₂ Alike (bytes_eq path livez) (λ _. (probe-SameHead 200 ok_text refl, refl))
          (λ _.
            if_keeps₂ Alike (bytes_eq path readyz) (λ _. readiness-Alike state w)
              (λ _.
                if_keeps₂ Alike state.shutting_down
                  (λ _. (text-SameHead 503 not_ready refl (omega arith), refl))
                  (λ _. serve-Alike state.content_root path w)))
