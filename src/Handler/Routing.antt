-- ===== src/Handler/Routing.antt =====
-- src/handler/routing.rs.
pub mod Shape
pub mod Measured
pub mod Content
pub mod Head
pub mod Probes
pub mod Table
pub mod Delivered
pub mod Valid
pub mod Marks
pub mod CutOff
use tiny_httpd.Base.{
  ℕ, ◌+◌, ◌/◌, ◌^◌, ◌-◌, Bool, true, false, not, ◌&&◌, ◌||◌, Option, none, some, List, [], ◌∷◌,
  ◌++◌, if◌then◌else◌, Bytes, bytes_eq, codes, Result, ok, err, length, ltb,
}
use tiny_httpd.Fs.Error.{
  IoError, ResolveError, bad_target, invalid_percent_encoding, invalid_utf8, encoded_slash,
  null_byte, traversal, escape, not_found, io,
}
use tiny_httpd.Fs.System.{FileSystem, Metadata}
use tiny_httpd.Metrics.{
  Log, InFlightRequestGuard, request_started, finish, drop_guard, request_finished, status_class,
}
use tiny_httpd.Handler.Http.{
  Method, get, head, other, is_get, is_head, method_name, Body, empty, Response, Toolkit,
}
use tiny_httpd.Handler.State.{AppState}
use tiny_httpd.Handler.Response.{
  ResponseOutcome, text_response, text_response_with_headers, default_index_outcome, file_response,
}

abbrev pub livez : Bytes
livez = codes "/livez"

abbrev pub readyz : Bytes
readyz = codes "/readyz"

abbrev pub root_path : Bytes
root_path = codes "/"

abbrev pub not_ready : Bytes
not_ready = codes "not ready\n"

abbrev pub ok_text : Bytes
ok_text = codes "ok\n"

abbrev pub ready_text : Bytes
ready_text = codes "ready\n"

abbrev pub not_allowed_text : Bytes
not_allowed_text = codes "method not allowed\n"

abbrev pub not_found_text : Bytes
not_found_text = codes "not found\n"

module _ {File : Type 0} (kit : Toolkit File) where
  unfoldable pub probe_response : Bool → ℕ → Bytes → ResponseOutcome File
  unfolding text_response
  probe_response head_only status body =
      let outcome = text_response kit status body in
      if head_only
      then record outcome { response = record outcome.response { body = empty } }
      else outcome

  unfoldable pub map_file_error : ResolveError → ResponseOutcome File
  unfolding text_response
  map_file_error not_found = text_response kit 404 not_found_text
  map_file_error (io e) = text_response kit 500 (codes "internal server error\n")
  map_file_error _ = text_response kit 400 (codes "bad request\n")

  unfoldable pub fallback_default_response : Bytes → Bytes → Bool → ResponseOutcome File
  unfolding default_index_outcome text_response
  fallback_default_response page path head_only =
      if bytes_eq path root_path
      then default_index_outcome kit page head_only
      else text_response kit 404 not_found_text

  -- The last `match` of `route`.
  unfoldable pub respond :
      Bytes → Bytes → Bool → Result ResolveError (ResponseOutcome File) → ResponseOutcome File
  unfolding map_file_error default_index_outcome bytes_eq
  respond page path head_only (ok outcome) = outcome
  respond page path head_only (err not_found) =
      if bytes_eq path root_path
      then default_index_outcome kit page head_only
      else map_file_error not_found
  respond page path head_only (err e) = map_file_error e

unfoldable pub is_directory : Result IoError Metadata → Bool
is_directory (ok m) = m.is_dir
is_directory (err e) = false

module _ {W File : Type 0} (fs : FileSystem W File) where
  -- `readable` of the readiness probe.
  unfoldable pub is_readable : Option Bytes → W → Bool × W
  unfolding is_directory
  is_readable none w = (true, w)
  is_readable (some content_root) w =
      let (found, w') = fs.metadata content_root w in (is_directory found, w')

module _ {W File : Type 0} (fs : FileSystem W File) (kit : Toolkit File) (page : Bytes) where
  unfoldable pub readiness : AppState → Method → W → ResponseOutcome File × W
  unfolding is_readable is_head probe_response
  readiness state method w =
      if not state.ready
      then (probe_response kit (is_head method) 503 not_ready, w)
      else let (readable, w') = is_readable fs state.content_root w in
        if readable
        then (probe_response kit (is_head method) 200 ready_text, w')
        else (probe_response kit (is_head method) 503 not_ready, w')

  -- A static file, or the embedded page.
  unfoldable pub serve_content : Option Bytes → Bytes → Bool → W → ResponseOutcome File × W
  unfolding fallback_default_response file_response respond
  serve_content none path head_only w = (fallback_default_response kit page path head_only, w)
  serve_content (some content_root) path head_only w =
      let (served, w') = file_response kit fs content_root path head_only w in
      (respond kit page path head_only served, w')

  unfoldable pub route : AppState → Method → Bytes → W → ResponseOutcome File × W
  unfolding readiness probe_response text_response text_response_with_headers serve_content is_get
      is_head bytes_eq
  route state method path w =
      if bytes_eq path livez
      then (probe_response kit (is_head method) 200 ok_text, w)
      else if bytes_eq path readyz
      then readiness state method w
      else if not (is_get method) && not (is_head method)
      then (
        text_response_with_headers kit 405 not_allowed_text
            ((codes "allow", codes "GET, HEAD") ∷ []),
        w,
      )
      else if state.shutting_down
      then (text_response kit 503 not_ready, w)
      else serve_content state.content_root path (is_head method) w
