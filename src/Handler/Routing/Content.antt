-- ===== src/Handler/Routing/Content.antt =====
-- Requests for content in src/handler/routing.rs: what of the disk they touch, and how a failed
-- lookup is answered.
use tiny_httpd.Base.{
  ◌≡◌, ◌≢◌, ◌⊎◌, ◌∙◌, refl, Bool, true, false, not, ◌&&◌, Option, some, List, [], ◌∷◌, Bytes,
  bytes_eq, length, ◌==◌, All, arith, Result, ok, err, if_keeps, sym, subst, ap,
}
use tiny_httpd.Fs.Error.{ResolveError, IoError, is_not_found, escape, not_found, io}
use tiny_httpd.Fs.FilePath.{join}
use tiny_httpd.Fs.FilePath.Join.{starts_with_refl}
use tiny_httpd.Fs.Candidates.{candidate_paths}
use tiny_httpd.Fs.Candidates.Errors.{is_refusal, candidate_paths-refusal}
use tiny_httpd.Fs.System.{FileSystem, Call, recording}
use tiny_httpd.Fs.Resolve.{
  ResolvedFile, lookup_failed, resolve_loop, resolve_file, resolve_file_accepted,
  resolve_file_refused,
}
use tiny_httpd.Fs.Resolve.Contained.{IsWithin, resolve_file_contained}
use tiny_httpd.Handler.Http.{Method, get, head, other, is_head, is_get, Toolkit, IsLawful}
use tiny_httpd.Handler.State.{AppState}
use tiny_httpd.Handler.Response.{ResponseOutcome, file_outcome, file_response}
use tiny_httpd.Handler.Routing.{
  livez, readyz, is_readable, readiness, respond, serve_content, route,
}
use tiny_httpd.Handler.Routing.Shape.{map_file_error_lem, error_status}

-- A state that serves content, and a request for content.
pub record IsContentRequest (root : Bytes) (state : AppState) (method : Method) (path : Bytes)
    : Type 0 where
  pub rooted : state.content_root ≡ some root
  pub serving : state.shutting_down ≡ false
  pub reads : (method ≡ get) ⊎ (method ≡ head)
  pub no_livez : bytes_eq path livez ≡ false
  pub no_readyz : bytes_eq path readyz ≡ false

module _ {W File : Type 0} (fs : FileSystem W File) (kit : Toolkit File) (page root : Bytes) where
  abbrev Within : ResponseOutcome File × (W × List Call) → Type 0
  Within o = All (IsWithin root) o.1.1

  readable-Within :
      (w : W) (r : Option Bytes)
      → r ≡ some root
      → All (IsWithin root) (is_readable (recording fs) r (w, [])).1.1
  unfolding is_readable recording
  readable-Within w r e =
      subst (λ o. All (IsWithin root) (is_readable (recording fs) o (w, [])).1.1) (sym e)
        (starts_with_refl root, tt)

  content-Within :
      (path : Bytes) (head_only : Bool) (w : W) (r : Option Bytes)
      → r ≡ some root
      → root ≢ []
      → Within (serve_content (recording fs) kit page r path head_only (w, []))
  unfolding serve_content file_response
  content-Within path head_only w r e h =
      subst (λ o. Within (serve_content (recording fs) kit page o path head_only (w, []))) (sym e)
        (resolve_file_contained fs root path w h)

  -- Whatever is requested, and whatever the file system answers, a server with a content root
  -- looks up, inspects and opens only paths whose components begin with those of the content
  -- root; the readiness probe inspects the root itself.
  pub route_contained :
      (state : AppState) (method : Method) (path : Bytes) (w : W)
      → state.content_root ≡ some root
      → root ≢ []
      → All (IsWithin root) (route (recording fs) kit page state method path (w, [])).1.1
  unfolding route readiness
  route_contained state method path w e h =
      if_keeps Within (bytes_eq path livez) (λ _. tt)
        (λ _.
          if_keeps Within (bytes_eq path readyz)
            (λ _.
              if_keeps Within (not state.ready) (λ _. tt)
                (λ _.
                  if_keeps Within (is_readable (recording fs) state.content_root (w, [])).0
                    (λ _. readable-Within w state.content_root e)
                    (λ _. readable-Within w state.content_root e)))
            (λ _.
              if_keeps Within (not (is_get method) && not (is_head method)) (λ _. tt)
                (λ _.
                  if_keeps Within state.shutting_down (λ _. tt)
                    (λ _. content-Within path (is_head method) w state.content_root e h))))

  route-serve_content :
      (state : AppState) (method : Method) (path : Bytes) (w : W)
      → IsContentRequest root state method path
      → route fs kit page state method path w
        ≡ serve_content fs kit page (some root) path (is_head method) w
  unfolding route
  route-serve_content state method path w c =
      subst
        (λ r.
          route fs kit page state method path w
          ≡ serve_content fs kit page r path (is_head method) w)
        c.rooted (rw (c.no_livez, c.no_readyz, reading method c.reads, c.serving))
    where
      reading : (m : Method) → (m ≡ get) ⊎ (m ≡ head) → (not (is_get m) && not (is_head m)) ≡ false
      reading get e = refl
      reading head e = refl
      reading (other name) e = ground arith

  route-failed :
      (state : AppState) (method : Method) (path : Bytes) (w w' : W) (e : ResolveError)
      → IsContentRequest root state method path
      → resolve_file fs root path w ≡ (err e, w')
      → route fs kit page state method path w ≡ (respond kit page path (is_head method) (err e), w')
  unfolding serve_content file_response file_outcome
  route-failed state method path w w' e c failed =
      route-serve_content state method path w c
      ∙ ap
          (λ (o : Result ResolveError (ResolvedFile File) × W).
            (respond kit page path (is_head method) (file_outcome kit o.0 (is_head method)), o.1))
          failed

  respond-refusal :
      (path : Bytes) (h : Bool) (e : ResolveError)
      → IsLawful kit
      → is_refusal e ≡ true
      → (respond kit page path h (err e)).response.status ≡ 400
  unfolding respond error_status is_refusal
  respond-refusal path h not_found law r = cc
  respond-refusal path h escape law r = cc
  respond-refusal path h (io e) law r = cc
  respond-refusal path h e law r = rw (map_file_error_lem kit law e)

  -- A request path that `candidate_paths` refuses is answered `400`, and nothing is asked of the
  -- file system, while the server serves content and the response builder keeps its documented
  -- contract.
  pub route-refused :
      (state : AppState) (method : Method) (path : Bytes) (w : W) {e : ResolveError}
      → IsLawful kit
      → IsContentRequest root state method path
      → candidate_paths path ≡ err e
      → ((route fs kit page state method path w).0.response.status ≡ 400)
        × ((route fs kit page state method path w).1 ≡ w)
  route-refused state method path w {e} law c h =
      let same = route-failed state method path w w e c (resolve_file_refused fs root path w h) in
      rw same (respond-refusal path (is_head method) e law (candidate_paths-refusal path e h), refl)

  first_lookup_failed :
      (path : Bytes) (w w' : W) (e : IoError) {first : Bytes} {others : List Bytes}
      → candidate_paths path ≡ ok (first ∷ others)
      → fs.canonicalize (join root first) w ≡ (err e, w')
      → is_not_found e ≡ false
      → resolve_file fs root path w ≡ (err (io e), w')
  unfolding resolve_loop
  first_lookup_failed path w w' e {first} {others} accepted failed kind =
      resolve_file_accepted fs root path w accepted
      ∙ rw (lookup_failed fs root (length (first ∷ others) == 2) false first w w' e failed kind)

  -- If the first lookup fails with any kind of error but "not found", the answer is `500`: so for
  -- a path below a regular file, which the system reports as "not a directory", though no file
  -- was being served.
  pub route-io_error :
      (state : AppState) (method : Method) (path : Bytes) (w w' : W) (e : IoError) {first : Bytes}
      {others : List Bytes}
      → IsLawful kit
      → IsContentRequest root state method path
      → candidate_paths path ≡ ok (first ∷ others)
      → fs.canonicalize (join root first) w ≡ (err e, w')
      → is_not_found e ≡ false
      → ((route fs kit page state method path w).0.response.status ≡ 500)
        × ((route fs kit page state method path w).1 ≡ w')
  unfolding respond error_status
  route-io_error state method path w w' e law c accepted failed kind =
      let same =
        route-failed state method path w w' (io e) c
          (first_lookup_failed path w w' e accepted failed kind) in
      rw (same, map_file_error_lem kit law (io e)) (refl, refl)
