-- ===== src/Handler/Routing/Table.antt =====
-- The branches of `route` of src/handler/routing.rs as rules over what `resolve_file` returns: which
-- reply each gives, and when.
pub mod Answered
pub mod Branches
pub mod Exact
use tiny_httpd.Base.{
  ℕ, ◌≤◌, ◌<◌, ◌≡◌, ◌≢◌, ◌↔◌, ◌⊎◌, refl, Bool, true, false, not, ◌&&◌, ◌||◌, Option, none, some,
  List, [], ◌∷◌, if◌then◌else◌, Bytes, bytes_eq, bytes_eq→eq, bytes_eq_refl, subst, codes, arith,
  Result, ok, err, inl, inr, Result-cases, if_keeps, Bool-cases, Option-cases, length, ap, sym, ◌∙◌,
}
use tiny_httpd.Fs.Error.{ResolveError, not_found, io}
use tiny_httpd.Fs.System.{FileSystem, Metadata}
use tiny_httpd.Fs.Resolve.{ResolvedFile, resolve_file}
use tiny_httpd.Handler.Http.{
  Method, get, head, other, is_head, is_get, Toolkit, IsLawful, empty, full, stream, Body, Header,
}
use tiny_httpd.Handler.State.{AppState}
use tiny_httpd.Handler.Response.{ResponseOutcome, plain_text, file_outcome, file_response}
use tiny_httpd.Handler.Response.Built.{
  built, allow_headers, text_response_lem, not_allowed_lem, default_index_outcome_lem,
  resolved_response_lem,
}
use tiny_httpd.Handler.Routing.{
  livez, readyz, root_path, not_ready, ok_text, ready_text, not_allowed_text, not_found_text,
  is_readable, readiness, route, serve_content, respond, fallback_default_response, map_file_error,
}
use tiny_httpd.Handler.Routing.Shape.{
  error_status, error_text, probe_response_lem, map_file_error_lem,
}
use tiny_httpd.Handler.Routing.Probes.{IsReadable, is_readable_iff}

-- What the server has to say.
pub data Reply (File : Type 0) : Type 0 where
  alive ready unready draining no_method welcome missing : Reply File
  serves : ResolvedFile File → Reply File
  fails : ResolveError → Reply File

-- A probe is one of two paths, and any other request reads content.
abbrev pub IsContentPath : Bytes → Type 0
IsContentPath path = (path ≢ livez) × (path ≢ readyz)

abbrev pub Reads : Method → Type 0
Reads get = Unit
Reads head = Unit
Reads (other name) = ⊥

module _ {W File : Type 0} (fs : FileSystem W File) (state : AppState) (method : Method)
    (path : Bytes) (w : W) where
  -- The rules, with the state of the world afterwards.
  pub data Rule : Reply File → W → Type 0 where
    liveness : path ≡ livez → Rule alive w
    not_marked : path ≡ readyz → state.ready ≡ false → Rule unready w
    readable :
        path ≡ readyz
        → state.ready ≡ true
        → IsReadable fs state.content_root w
        → Rule ready (is_readable fs state.content_root w).1
    unreadable :
        path ≡ readyz
        → state.ready ≡ true
        → ¬ IsReadable fs state.content_root w
        → Rule unready (is_readable fs state.content_root w).1
    refused : IsContentPath path → ¬ Reads method → Rule no_method w
    shutting_down : IsContentPath path → Reads method → state.shutting_down ≡ true → Rule draining w
    no_root_index :
        IsContentPath path
        → Reads method
        → state.shutting_down ≡ false
        → state.content_root ≡ none
        → path ≡ root_path
        → Rule welcome w
    no_root_other :
        IsContentPath path
        → Reads method
        → state.shutting_down ≡ false
        → state.content_root ≡ none
        → path ≢ root_path
        → Rule missing w
    found :
        {root : Bytes} {r : ResolvedFile File} {w' : W}
        → IsContentPath path
        → Reads method
        → state.shutting_down ≡ false
        → state.content_root ≡ some root
        → resolve_file fs root path w ≡ (ok r, w')
        → Rule (serves r) w'
    no_index :
        {root : Bytes} {w' : W}
        → IsContentPath path
        → Reads method
        → state.shutting_down ≡ false
        → state.content_root ≡ some root
        → resolve_file fs root path w ≡ (err not_found, w')
        → path ≡ root_path
        → Rule welcome w'
    failed :
        {root : Bytes} {e : ResolveError} {w' : W}
        → IsContentPath path
        → Reads method
        → state.shutting_down ≡ false
        → state.content_root ≡ some root
        → resolve_file fs root path w ≡ (err e, w')
        → ((e ≢ not_found) ⊎ (path ≢ root_path))
        → Rule (fails e) w'

abbrev pub plain : {File : Type 0} → ℕ → Bytes → Body File → ResponseOutcome File
plain status text body = built status plain_text (length text) [] body

-- A body that `HEAD` does not get.
abbrev pub unless_head : {File : Type 0} → Bool → Body File → Body File
unless_head head_only body = if head_only then empty else body

module _ {File : Type 0} (kit : Toolkit File) (page : Bytes) where
  -- Status, headers and body of each reply.
  unfoldable pub render : Bool → Reply File → ResponseOutcome File
  unfolding error_status error_text
  render head_only alive = plain 200 ok_text (unless_head head_only (full ok_text))
  render head_only ready = plain 200 ready_text (unless_head head_only (full ready_text))
  render head_only unready = plain 503 not_ready (unless_head head_only (full not_ready))
  render head_only draining = plain 503 not_ready (full not_ready)
  render head_only no_method =
      built 405 plain_text (length not_allowed_text) allow_headers (full not_allowed_text)
  render head_only welcome =
      built 200 (codes "text/html; charset=utf-8") (length page) []
        (unless_head head_only (full page))
  render head_only missing = plain 404 not_found_text (full not_found_text)
  render head_only (serves r) =
      built 200 (kit.mime r.canonical_path) r.content_length []
        (unless_head head_only (stream r.file))
  render head_only (fails e) = plain (error_status e) (error_text e) (full (error_text e))
