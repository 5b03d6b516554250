-- ===== src/Handler/Routing/Measured.antt =====
-- The length that a response of src/handler/ declares.
use tiny_httpd.Base.{
  ℕ, ◌≡◌, refl, Bool, true, false, not, ◌&&◌, Option, none, some, List, [], ◌∷◌, if◌then◌else◌,
  Bytes, bytes_eq, length, Result, ok, err, if_keeps, subst, sym,
}
use tiny_httpd.Fs.Error.{ResolveError, not_found}
use tiny_httpd.Fs.System.{FileSystem}
use tiny_httpd.Fs.Resolve.{ResolvedFile, resolve_file}
use tiny_httpd.Handler.Http.{
  IsStatus, Method, is_head, is_get, HeaderValue, number, Header, Body, empty, full, stream,
  Toolkit, IsLawful,
}
use tiny_httpd.Handler.State.{AppState}
use tiny_httpd.Handler.Response.{
  ResponseOutcome, content_length, text_response, resolved_response, file_outcome, file_response,
  default_index_outcome,
}
use tiny_httpd.Handler.Response.Built.{
  built, text_response_lem, not_allowed_lem, default_index_outcome_lem, resolved_response_lem,
}
use tiny_httpd.Handler.Routing.{
  livez, readyz, root_path, not_ready, ok_text, ready_text, not_allowed_text, not_found_text,
  probe_response, map_file_error, fallback_default_response, is_readable, readiness, respond,
  serve_content, route,
}
use tiny_httpd.Handler.Routing.Shape.{probe_response_lem, map_file_error_lem}

-- The first header of a name.
unfoldable pub find_header : Bytes → List Header → Option HeaderValue
unfolding bytes_eq
find_header name [] = none
find_header name ((n, v) ∷ headers) = if bytes_eq n name then some v else find_header name headers

-- Bytes in memory are as many as declared.
abbrev pub Fits : {File : Type 0} → Body File → ℕ → Type 0
Fits empty n = Unit
Fits (full b) n = length b ≡ n
Fits (stream f) n = Unit

pub record IsMeasured {File : Type 0} (o : ResponseOutcome File) : Type 0 where
  pub declared : find_header content_length o.response.headers ≡ some (number o.body_size)
  pub fits : Fits o.response.body o.body_size

built-IsMeasured :
    {File : Type 0} (status : ℕ) (media : Bytes) (size : ℕ) (more : List Header) (body : Body File)
    → Fits body size
    → IsMeasured (built status media size more body)
unfolding find_header
built-IsMeasured status media size more body h = record { declared = refl; fits = h }

module _ {File : Type 0} (kit : Toolkit File) (law : IsLawful kit) where
  IsMeasured-built :
      (o : ResponseOutcome File) {status size : ℕ} {media : Bytes} {more : List Header}
      {body : Body File}
      → o ≡ built status media size more body
      → Fits body size
      → IsMeasured o
  IsMeasured-built o {status} {size} {media} {more} {body} e h =
      subst IsMeasured (sym e) (built-IsMeasured status media size more body h)

  if-Fits :
      (b : Bool) (body : Bytes) → Fits {File = File} (if b then empty else full body) (length body)
  if-Fits true body = tt
  if-Fits false body = refl

  probe-IsMeasured :
      (h : Bool) (status : ℕ) (body : Bytes)
      → IsStatus status
      → IsMeasured (probe_response kit h status body)
  probe-IsMeasured h status body valid =
      IsMeasured-built _ (probe_response_lem kit law h status body valid) (if-Fits h body)

  text-IsMeasured :
      (status : ℕ) (body : Bytes) → IsStatus status → IsMeasured (text_response kit status body)
  text-IsMeasured status body valid =
      IsMeasured-built _ (text_response_lem kit law status body valid) refl

  page-IsMeasured : (page : Bytes) (h : Bool) → IsMeasured (default_index_outcome kit page h)
  page-IsMeasured page h =
      IsMeasured-built _ (default_index_outcome_lem kit law page h) (if-Fits h page)

  error-IsMeasured : (e : ResolveError) → IsMeasured (map_file_error kit e)
  error-IsMeasured e = IsMeasured-built _ (map_file_error_lem kit law e) refl

  file-IsMeasured : (r : ResolvedFile File) (h : Bool) → IsMeasured (resolved_response kit r h)
  file-IsMeasured r true = IsMeasured-built _ (resolved_response_lem kit law r true) tt
  file-IsMeasured r false = IsMeasured-built _ (resolved_response_lem kit law r false) tt

  respond-IsMeasured :
      (page path : Bytes) (h : Bool) (e : ResolveError)
      → IsMeasured (respond kit page path h (err e))
  unfolding respond
  respond-IsMeasured page path h not_found =
      if_keeps IsMeasured (bytes_eq path root_path) (λ _. page-IsMeasured page h)
        (λ _. error-IsMeasured not_found)
  respond-IsMeasured page path h e = error-IsMeasured e

  resolved-IsMeasured :
      (page path : Bytes) (h : Bool) (r : Result ResolveError (ResolvedFile File))
      → IsMeasured (respond kit page path h (file_outcome kit r h))
  unfolding respond file_outcome
  resolved-IsMeasured page path h (ok r) = file-IsMeasured r h
  resolved-IsMeasured page path h (err e) = respond-IsMeasured page path h e

  module _ {W : Type 0} (fs : FileSystem W File) (page : Bytes) where
    abbrev Good : ResponseOutcome File × W → Type 0
    Good o = IsMeasured o.0

    readiness-IsMeasured :
        (state : AppState) (method : Method) (w : W) → Good (readiness fs kit page state method w)
    unfolding readiness
    readiness-IsMeasured state method w =
        if_keeps Good (not state.ready) (λ _. probe-IsMeasured (is_head method) 503 not_ready refl)
          (λ _.
            if_keeps Good (is_readable fs state.content_root w).0
              (λ _. probe-IsMeasured (is_head method) 200 ready_text refl)
              (λ _. probe-IsMeasured (is_head method) 503 not_ready refl))

    serve-IsMeasured :
        (root : Option Bytes) (path : Bytes) (h : Bool) (w : W)
        → Good (serve_content fs kit page root path h w)
    unfolding serve_content fallback_default_response file_response
    serve-IsMeasured none path h w =
        if_keeps IsMeasured (bytes_eq path root_path) (λ _. page-IsMeasured page h)
          (λ _. text-IsMeasured 404 not_found_text refl)
    serve-IsMeasured (some root) path h w =
        resolved-IsMeasured page path h (resolve_file fs root path w).0

    -- Every answer of the router declares in its content length the size that the metrics are
    -- told, and a body held in memory has that many bytes, provided that the response builder
    -- accepts well-formed headers as documented.
    pub route-IsMeasured :
        (state : AppState) (method : Method) (path : Bytes) (w : W)
        → IsMeasured (route fs kit page state method path w).0
    unfolding route
    route-IsMeasured state method path w =
        if_keeps Good (bytes_eq path livez)
          (λ _. probe-IsMeasured (is_head method) 200 ok_text refl)
          (λ _.
            if_keeps Good (bytes_eq path readyz) (λ _. readiness-IsMeasured state method w)
              (λ _.
                if_keeps Good (not (is_get method) && not (is_head method))
                  (λ _. IsMeasured-built _ (not_allowed_lem kit law not_allowed_text) refl)
                  (λ _.
                    if_keeps Good state.shutting_down (λ _. text-IsMeasured 503 not_ready refl)
                      (λ _. serve-IsMeasured state.content_root path (is_head method) w))))
