-- ===== src/Handler/Routing/Table/Branches.antt =====
-- What `readiness`, `respond` and `fallback_default_response` of src/handler/routing.rs come to on
-- each branch.
use tiny_httpd.Base.{
  ◌≡◌, ◌≢◌, ◌⊎◌, refl, Bool, true, false, not, ◌&&◌, Option, if◌then◌else◌, Bytes, bytes_eq,
  bytes_eq→eq, bytes_eq_refl, arith, err, inl, inr, Bool-cases, ap,
}
use tiny_httpd.Fs.Error.{ResolveError, not_found}
use tiny_httpd.Fs.System.{FileSystem}
use tiny_httpd.Handler.Http.{Method, get, head, other, is_head, is_get, Toolkit}
use tiny_httpd.Handler.State.{AppState}
use tiny_httpd.Handler.Response.{default_index_outcome}
use tiny_httpd.Handler.Routing.{
  root_path, not_ready, ready_text, is_readable, readiness, probe_response, respond,
  fallback_default_response, map_file_error,
}
use tiny_httpd.Handler.Routing.Probes.{IsReadable, is_readable_iff}
use tiny_httpd.Handler.Routing.Table.{Reads}

pub ne-bytes_eq : (s t : Bytes) → s ≢ t → bytes_eq s t ≡ false
ne-bytes_eq s t ne = elim (Bool-cases (bytes_eq s t)) [
  | inl same ↦ absurd (ne (bytes_eq→eq s t same))
  | inr other_text ↦ other_text
]

pub get_or_head_asked : (m : Method) → Reads m → (not (is_get m) && not (is_head m)) ≡ false
unfolding is_get is_head
get_or_head_asked get h = refl
get_or_head_asked head h = refl
get_or_head_asked (other name) h = elim h [ ]

pub writes-write : (m : Method) → ¬ Reads m → (not (is_get m) && not (is_head m)) ≡ true
unfolding is_get is_head
writes-write get h = absurd (h tt)
writes-write head h = absurd (h tt)
writes-write (other name) h = refl

pub with_world : {A W : Type 0} {o o' : A} (w : W) → o ≡ o' → ◌≡◌ {A = A × W} (o, w) (o', w)
with_world {A} w = ap (λ (o : A). (o, w))

module _ {W File : Type 0} (fs : FileSystem W File) (kit : Toolkit File) (page : Bytes)
    (state : AppState) (method : Method) (w : W) where
  pub readiness_lem :
      (set : Bool)
      → state.ready ≡ set
      → (dir : Bool) → (is_readable fs state.content_root w).0 ≡ dir
      → readiness fs kit page state method w ≡ (
          if not set
          then (probe_response kit (is_head method) 503 not_ready, w)
          else if dir
          then (
            probe_response kit (is_head method) 200 ready_text,
            (is_readable fs state.content_root w).1,
          )
          else (
            probe_response kit (is_head method) 503 not_ready,
            (is_readable fs state.content_root w).1,
          ))
  unfolding readiness
  readiness_lem set h dir h' = ground (arith, h, h')

module _ {W File : Type 0} (fs : FileSystem W File) (root : Option Bytes) (w : W) where
  pub unread : ¬ IsReadable fs root w → (is_readable fs root w).0 ≡ false
  unread no_dir = elim (Bool-cases (is_readable fs root w).0) [
    | inl dir ↦ absurd (no_dir ((is_readable_iff fs root w).0 dir))
    | inr missing_dir ↦ missing_dir
  ]

module _ {File : Type 0} (kit : Toolkit File) (page path : Bytes) (head_only : Bool) where
  pub failed_lem :
      (e : ResolveError)
      → ((e ≢ not_found) ⊎ (path ≢ root_path))
      → respond kit page path head_only (err e) ≡ map_file_error kit e
  unfolding respond
  failed_lem not_found (inl other_error) = absurd (other_error refl)
  failed_lem not_found (inr below) = rw (ne-bytes_eq path root_path below)
  failed_lem e why = refl

  pub fallback_lem :
      path ≡ root_path
      → fallback_default_response kit page path head_only ≡ default_index_outcome kit page head_only
  unfolding fallback_default_response
  fallback_lem e =
      let test : bytes_eq path root_path ≡ true = rw e (bytes_eq_refl root_path) in rw test

  pub index_lem :
      path ≡ root_path
      → respond kit page path head_only (err not_found) ≡ default_index_outcome kit page head_only
  unfolding respond
  index_lem e =
      let test : bytes_eq path root_path ≡ true = rw e (bytes_eq_refl root_path) in rw test
