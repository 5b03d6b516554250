-- ===== src/Handler/Routing/Table/Exact.antt =====
-- Each rule says what `route` of src/handler/routing.rs does.
use tiny_httpd.Base.{
  ◌≡◌, refl, Bool, true, false, Option, some, [], ◌∷◌, if◌then◌else◌, Bytes, bytes_eq,
  bytes_eq_refl, codes, Result, ok, err, ap, ◌∙◌,
}
use tiny_httpd.Fs.Error.{ResolveError, not_found}
use tiny_httpd.Fs.System.{FileSystem}
use tiny_httpd.Fs.Resolve.{ResolvedFile, resolve_file}
use tiny_httpd.Handler.Http.{Method, is_head, Toolkit, IsLawful}
use tiny_httpd.Handler.State.{AppState}
use tiny_httpd.Handler.Response.{
  ResponseOutcome, file_outcome, file_response, text_response, text_response_with_headers,
}
use tiny_httpd.Handler.Response.Built.{
  text_response_lem, not_allowed_lem, default_index_outcome_lem, resolved_response_lem,
}
use tiny_httpd.Handler.Routing.{
  livez, readyz, root_path, not_ready, ok_text, ready_text, not_allowed_text, not_found_text,
  readiness, route, serve_content, respond, fallback_default_response,
}
use tiny_httpd.Handler.Routing.Shape.{probe_response_lem, map_file_error_lem}
use tiny_httpd.Handler.Routing.Probes.{is_readable_iff}
use tiny_httpd.Handler.Routing.Table.{
  Reply, alive, IsContentPath, Reads, Rule, liveness, not_marked, readable, unreadable, refused,
  shutting_down, no_root_index, no_root_other, found, no_index, failed, render,
}
use tiny_httpd.Handler.Routing.Table.Branches.{
  ne-bytes_eq, get_or_head_asked, writes-write, with_world, readiness_lem, failed_lem, unread,
  fallback_lem, index_lem,
}

module _ {W File : Type 0} (fs : FileSystem W File) (kit : Toolkit File) (law : IsLawful kit)
    (page : Bytes) (state : AppState) (method : Method) (path : Bytes) (w : W) where
  abbrev Does : Reply File → W → Type 0
  Does reply w' =
      route fs kit page state method path w ≡ (render kit page (is_head method) reply, w')

  liveness_lem : path ≡ livez → Does alive w
  unfolding route render
  liveness_lem e =
      let test : bytes_eq path livez ≡ true = rw e (bytes_eq_refl livez) in
      rw (test, route)
        (ap (λ (o : ResponseOutcome File). (o, w))
          (probe_response_lem kit law (is_head method) 200 ok_text refl))

  at_readyz :
      path ≡ readyz → route fs kit page state method path w ≡ readiness fs kit page state method w
  unfolding route
  at_readyz e =
      let live : bytes_eq path livez ≡ false = rw e (unfold bytes_eq in refl) in
      let test : bytes_eq path readyz ≡ true = rw e (bytes_eq_refl readyz) in rw (live, test) refl

  content_lem :
      IsContentPath path
      → Reads method
      → route fs kit page state method path w ≡ (
          if state.shutting_down
          then (text_response kit 503 not_ready, w)
          else serve_content fs kit page state.content_root path (is_head method) w)
  unfolding route
  content_lem content reads = rw (
    ne-bytes_eq path livez content.0,
    ne-bytes_eq path readyz content.1,
    get_or_head_asked method reads,
  )

  serving_lem :
      IsContentPath path
      → Reads method
      → state.shutting_down ≡ false
      → {o : Option Bytes} → state.content_root ≡ o
      → route fs kit page state method path w ≡ serve_content fs kit page o path (is_head method) w
  serving_lem content reads up {o} rooted =
      content_lem content reads
      ∙ ap
          (λ (b : Bool).
            if b
            then (text_response kit 503 not_ready, w)
            else serve_content fs kit page state.content_root path (is_head method) w)
          up
      ∙ ap (λ (r : Option Bytes). serve_content fs kit page r path (is_head method) w) rooted

  resolved_lem :
      {root : Bytes}
      → IsContentPath path
      → Reads method
      → state.shutting_down ≡ false
      → state.content_root ≡ some root
      → (r : Result ResolveError (ResolvedFile File)) (w' : W)
      → resolve_file fs root path w ≡ (r, w')
      → route fs kit page state method path w
        ≡ (respond kit page path (is_head method) (file_outcome kit r (is_head method)), w')
  unfolding serve_content file_response
  resolved_lem content reads up rooted r w' e =
      serving_lem content reads up rooted
      ∙ ap
          (λ (o : Result ResolveError (ResolvedFile File) × W).
            (respond kit page path (is_head method) (file_outcome kit o.0 (is_head method)), o.1))
          e

  refused_lem :
      IsContentPath path
      → ¬ Reads method
      → route fs kit page state method path w ≡ (
        text_response_with_headers kit 405 not_allowed_text
            ((codes "allow", codes "GET, HEAD") ∷ []),
        w,
      )
  unfolding route
  refused_lem content writes = rw (
    ne-bytes_eq path livez content.0,
    ne-bytes_eq path readyz content.1,
    writes-write method writes,
  )

  draining_lem :
      IsContentPath path
      → Reads method
      → state.shutting_down ≡ true
      → route fs kit page state method path w ≡ (text_response kit 503 not_ready, w)
  draining_lem content reads down =
      content_lem content reads
      ∙ ap
          (λ (b : Bool).
            if b
            then (text_response kit 503 not_ready, w)
            else serve_content fs kit page state.content_root path (is_head method) w)
          down

  -- Each of the rules holds: where its conditions are met, `route` gives
  -- the status, the headers and the body of the rule, and leaves the world as the rule says.
  pub route-Rule :
      (reply : Reply File) (w' : W) → Rule fs state method path w reply w' → Does reply w'
  unfolding render respond serve_content fallback_default_response file_outcome readiness
  route-Rule reply w' (liveness e) = liveness_lem e
  route-Rule reply w' (not_marked e unset) =
      at_readyz e
      ∙ readiness_lem fs kit page state method w false unset _ refl
      ∙ with_world w' (probe_response_lem kit law (is_head method) 503 not_ready refl)
  route-Rule reply w' (readable e set dir) =
      at_readyz e
      ∙ readiness_lem fs kit page state method w true set true
          ((is_readable_iff fs state.content_root w).1 dir)
      ∙ with_world w' (probe_response_lem kit law (is_head method) 200 ready_text refl)
  route-Rule reply w' (unreadable e set no_dir) =
      at_readyz e
      ∙ readiness_lem fs kit page state method w true set false
          (unread fs state.content_root w no_dir)
      ∙ with_world w' (probe_response_lem kit law (is_head method) 503 not_ready refl)
  route-Rule reply w' (refused content writes) =
      refused_lem content writes ∙ with_world w' (not_allowed_lem kit law not_allowed_text)
  route-Rule reply w' (shutting_down content reads down) =
      draining_lem content reads down ∙ with_world w' (text_response_lem kit law 503 not_ready refl)
  route-Rule reply w' (no_root_index content reads up rootless at_root) =
      serving_lem content reads up rootless
      ∙ with_world w' (
          fallback_lem kit page path (is_head method) at_root
          ∙ default_index_outcome_lem kit law page (is_head method))
  route-Rule reply w' (no_root_other content reads up rootless below) =
      serving_lem content reads up rootless
      ∙ with_world w' (
          rw (ne-bytes_eq path root_path below, fallback_default_response)
            (text_response_lem kit law 404 not_found_text refl))
  route-Rule reply w' (found {r = r} content reads up rooted e) =
      resolved_lem content reads up rooted (ok r) w' e
      ∙ with_world w' (resolved_response_lem kit law r (is_head method))
  route-Rule reply w' (no_index content reads up rooted e at_root) =
      resolved_lem content reads up rooted (err not_found) w' e
      ∙ with_world w' (
          index_lem kit page path (is_head method) at_root
          ∙ default_index_outcome_lem kit law page (is_head method))
  route-Rule reply w' (failed {e = e} content reads up rooted h why) =
      resolved_lem content reads up rooted (err e) w' h
      ∙ with_world w'
          (failed_lem kit page path (is_head method) e why ∙ map_file_error_lem kit law e)
