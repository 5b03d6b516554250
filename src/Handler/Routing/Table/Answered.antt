-- ===== src/Handler/Routing/Table/Answered.antt =====
-- `route` of src/handler/routing.rs is covered by the rules.
use tiny_httpd.Base.{
  ◌≡◌, ◌≢◌, refl, true, false, not, ◌&&◌, Option, none, some, Bytes, bytes_eq, bytes_eq→eq,
  bytes_eq_refl, subst, arith, Result, ok, err, inl, inr, if_keeps,
}
use tiny_httpd.Fs.Error.{ResolveError, not_found}
use tiny_httpd.Fs.System.{FileSystem}
use tiny_httpd.Fs.Resolve.{ResolvedFile, resolve_file}
use tiny_httpd.Handler.Http.{Method, get, head, other, is_head, is_get, Toolkit, IsLawful}
use tiny_httpd.Handler.State.{AppState}
use tiny_httpd.Handler.Response.{ResponseOutcome, file_outcome, file_response}
use tiny_httpd.Handler.Response.Built.{
  text_response_lem, not_allowed_lem, default_index_outcome_lem, resolved_response_lem,
}
use tiny_httpd.Handler.Routing.{
  livez, readyz, root_path, not_ready, ok_text, ready_text, not_allowed_text, not_found_text,
  is_readable, readiness, route, serve_content, respond, fallback_default_response,
}
use tiny_httpd.Handler.Routing.Shape.{probe_response_lem, map_file_error_lem}
use tiny_httpd.Handler.Routing.Probes.{is_readable_iff}
use tiny_httpd.Handler.Routing.Table.{
  Reply, alive, ready, unready, draining, no_method, welcome, missing, serves, fails, IsContentPath,
  Reads, Rule, liveness, not_marked, readable, unreadable, refused, shutting_down, no_root_index,
  no_root_other, found, no_index, failed, render,
}

bytes_eq-ne : (s t : Bytes) → bytes_eq s t ≡ false → s ≢ t
bytes_eq-ne s t h e = cc (bytes_eq_refl t, subst (λ u. bytes_eq u t ≡ false) e h)

module _ {W File : Type 0} (fs : FileSystem W File) (kit : Toolkit File) (law : IsLawful kit)
    (page : Bytes) (state : AppState) (method : Method) (path : Bytes) (w : W) where
  abbrev pub Answered : ResponseOutcome File × W → Type 0
  Answered o =
      (reply : Reply File) × Rule fs state method path w reply o.1
      × (o.0 ≡ render kit page (is_head method) reply)

  readiness-Answered : path ≡ readyz → Answered (readiness fs kit page state method w)
  unfolding readiness render
  readiness-Answered at_ready =
      if_keeps Answered (not state.ready)
        (λ unset. (
          unready,
          not_marked at_ready (ground (arith, unset)),
          probe_response_lem kit law (is_head method) 503 not_ready refl,
        ))
        (λ set.
          let exactly = is_readable_iff fs state.content_root w in
          if_keeps Answered (is_readable fs state.content_root w).0
            (λ yes_dir. (
              ready,
              readable at_ready (ground (arith, set)) (exactly.0 yes_dir),
              probe_response_lem kit law (is_head method) 200 ready_text refl,
            ))
            (λ no_dir. (
              unready,
              unreadable at_ready (ground (arith, set)) (λ r. cc (exactly.1 r, no_dir)),
              probe_response_lem kit law (is_head method) 503 not_ready refl,
            )))

  module _ (content : IsContentPath path) (reads : Reads method)
      (serving : state.shutting_down ≡ false) where
    respond-Answered :
        (root : Bytes)
        → state.content_root ≡ some root
        → (r : Result ResolveError (ResolvedFile File)) (w' : W)
        → resolve_file fs root path w ≡ (r, w')
        → Answered
            (respond kit page path (is_head method) (file_outcome kit r (is_head method)), w')
    unfolding respond render file_outcome
    respond-Answered root rooted (ok r) w' e = (
      serves r,
      found content reads serving rooted e,
      resolved_response_lem kit law r (is_head method),
    )
    respond-Answered root rooted (err not_found) w' e =
        if_keeps (λ o. Answered (o, w')) (bytes_eq path root_path)
          (λ at_root. (
            welcome,
            no_index content reads serving rooted e (bytes_eq→eq path root_path at_root),
            default_index_outcome_lem kit law page (is_head method),
          ))
          (λ below. (
            fails not_found,
            failed content reads serving rooted e (inr (bytes_eq-ne path root_path below)),
            map_file_error_lem kit law not_found,
          ))
    respond-Answered root rooted (err e') w' e = (
      fails e',
      failed content reads serving rooted e (inl (λ same. cc)),
      map_file_error_lem kit law e',
    )

    content-Answered :
        Answered (serve_content fs kit page state.content_root path (is_head method) w)
    unfolding serve_content fallback_default_response render file_response
    content-Answered = go state.content_root refl
      where
        go :
            (o : Option Bytes)
            → state.content_root ≡ o
            → Answered (serve_content fs kit page o path (is_head method) w)
        go none rooted =
            if_keeps (λ o. Answered (o, w)) (bytes_eq path root_path)
              (λ at_root. (
                welcome,
                no_root_index content reads serving rooted (bytes_eq→eq path root_path at_root),
                default_index_outcome_lem kit law page (is_head method),
              ))
              (λ below. (
                missing,
                no_root_other content reads serving rooted (bytes_eq-ne path root_path below),
                text_response_lem kit law 404 not_found_text refl,
              ))
        go (some root) rooted = respond-Answered root rooted _ _ refl

  get_or_head :
      (m : Method)
      → ((not (is_get m) && not (is_head m) ≡ true) → ¬ Reads m)
        × ((not (is_get m) && not (is_head m) ≡ false) → Reads m)
  unfolding is_get is_head
  get_or_head get = ((λ h. cc), (λ h. tt))
  get_or_head head = ((λ h. cc), (λ h. tt))
  get_or_head (other name) = ((λ h r. r), (λ h. cc))

  -- Whatever is asked, one of the rules answers.
  pub route-Answered : Answered (route fs kit page state method path w)
  unfolding route render
  route-Answered =
      if_keeps Answered (bytes_eq path livez)
        (λ at_live. (
          alive,
          liveness (bytes_eq→eq path livez at_live),
          probe_response_lem kit law (is_head method) 200 ok_text refl,
        ))
        (λ not_live.
          if_keeps Answered (bytes_eq path readyz)
            (λ at_ready. readiness-Answered (bytes_eq→eq path readyz at_ready))
            (λ no_probe.
              let content : IsContentPath path =
                (bytes_eq-ne path livez not_live, bytes_eq-ne path readyz no_probe) in
              if_keeps Answered (not (is_get method) && not (is_head method))
                (λ writes. (
                  no_method,
                  refused content ((get_or_head method).0 writes),
                  not_allowed_lem kit law not_allowed_text,
                ))
                (λ read.
                  let reads = (get_or_head method).1 read in
                  if_keeps Answered state.shutting_down
                    (λ down. (
                      draining,
                      shutting_down content reads down,
                      text_response_lem kit law 503 not_ready refl,
                    ))
                    (λ up. content-Answered content reads up))))
