-- ===== src/Handler/Routing/Probes.antt =====
-- The probes of src/handler/routing.rs, and what the router answers while the server drains.
use tiny_httpd.Base.{
  ℕ, ◌≡◌, ◌↔◌, ◌⊎◌, refl, Bool, true, false, not, ◌&&◌, ◌||◌, Option, none, some, [], ◌∷◌,
  if◌then◌else◌, Bytes, bytes_eq, codes, arith, ok, if_keeps₂, inl, inr, Result-cases,
}
use tiny_httpd.Fs.System.{FileSystem, Metadata}
use tiny_httpd.Handler.Http.{IsStatus, Method, get, head, other, is_head, is_get, Toolkit, IsLawful}
use tiny_httpd.Handler.State.{AppState, mark_not_ready, mark_shutting_down}
use tiny_httpd.Handler.Response.{ResponseOutcome, text_response, text_response_with_headers}
use tiny_httpd.Handler.Response.Built.{text_response_lem, not_allowed_lem}
use tiny_httpd.Handler.Routing.{
  livez, readyz, not_ready, ok_text, ready_text, not_allowed_text, probe_response, is_readable,
  readiness, route,
}
use tiny_httpd.Handler.Routing.Shape.{probe_response_lem}

-- What a draining server answers.
unfoldable pub drain_status : Method → Bytes → ℕ
drain_status method path =
    if bytes_eq path livez
    then 200
    else if bytes_eq path readyz
    then 503
    else if is_get method || is_head method
    then 503
    else 405

module _ {W File : Type 0} (fs : FileSystem W File) where
  -- The content root is a directory now, or none is configured.
  abbrev pub IsReadable : Option Bytes → W → Type 0
  IsReadable none w = Unit
  IsReadable (some root) w = (m : Metadata) × ((fs.metadata root w).0 ≡ ok m) × (m.is_dir ≡ true)

  pub is_readable_iff :
      (root : Option Bytes) (w : W) → ((is_readable fs root w).0 ≡ true) ↔ IsReadable root w
  unfolding is_readable
  is_readable_iff none w = ((λ _. tt), (λ _. refl))
  is_readable_iff (some root) w = (
    (λ e. elim (Result-cases (fs.metadata root w).0) [
      | inl (m, found) ↦ (m, found, ground (arith, found))
      | inr (fault, failed) ↦ absurd (ground (arith, failed))
    ]),
    (λ r. ground (arith, r.1, r.2)),
  )

module _ {W File : Type 0} (fs : FileSystem W File) (kit : Toolkit File) (law : IsLawful kit)
    (page : Bytes) where
  probe-status :
      (h : Bool) (status : ℕ) (body : Bytes)
      → IsStatus status
      → (probe_response kit h status body).response.status ≡ status
  probe-status h status body valid = rw (probe_response_lem kit law h status body valid)

  text-status :
      (status : ℕ) (body : Bytes)
      → IsStatus status
      → (text_response kit status body).response.status ≡ status
  text-status status body valid = rw (text_response_lem kit law status body valid)

  abbrev Answers : ℕ → W → ResponseOutcome File × W → Type 0
  Answers status w o = (o.0.response.status ≡ status) × (o.1 ≡ w)

  -- Once both marks of the shutdown are set, liveness stays `200`, readiness is `503`, `GET` and
  -- `HEAD` of any other path get `503` and other methods `405`, and no request asks the file
  -- system for anything. The response builder keeps its documented contract.
  pub route_draining :
      (state : AppState) (method : Method) (path : Bytes) (w : W)
      → let o = route fs kit page (mark_shutting_down (mark_not_ready state)) method path w in
        (o.0.response.status ≡ drain_status method path) × (o.1 ≡ w)
  unfolding route drain_status mark_shutting_down mark_not_ready readiness
  route_draining state method path w =
      if_keeps₂ (λ s o. Answers s w o) (bytes_eq path livez)
        (λ _. (probe-status (is_head method) 200 ok_text refl, refl))
        (λ _.
          if_keeps₂ (λ s o. Answers s w o) (bytes_eq path readyz)
            (λ _. (probe-status (is_head method) 503 not_ready refl, refl))
            (λ _. other_path method))
    where
      other_path :
          (m : Method)
          → Answers (if is_get m || is_head m then 503 else 405) w (
              if not (is_get m) && not (is_head m)
              then (
                text_response_with_headers kit 405 not_allowed_text
                    ((codes "allow", codes "GET, HEAD") ∷ []),
                w,
              )
              else (text_response kit 503 not_ready, w))
      other_path get = (text-status 503 not_ready refl, refl)
      other_path head = (text-status 503 not_ready refl, refl)
      other_path (other name) = (rw (not_allowed_lem kit law not_allowed_text), refl)

  readiness-status :
      (state : AppState) (method : Method) (w : W)
      → (readiness fs kit page state method w).0.response.status
        ≡ (if state.ready && (is_readable fs state.content_root w).0 then 200 else 503)
  unfolding readiness
  readiness-status state method w = ready_or_not state.ready (is_readable fs state.content_root w)
    where
      ready_or_not :
          (ready : Bool) (r : Bool × W)
          → let o : ResponseOutcome File × W =
              if not ready
              then (probe_response kit (is_head method) 503 not_ready, w)
              else if r.0
              then (probe_response kit (is_head method) 200 ready_text, r.1)
              else (probe_response kit (is_head method) 503 not_ready, r.1) in
            o.0.response.status ≡ (if ready && r.0 then 200 else 503)
      ready_or_not false r = probe-status (is_head method) 503 not_ready refl
      ready_or_not true (false, w') = probe-status (is_head method) 503 not_ready refl
      ready_or_not true (true, w') = probe-status (is_head method) 200 ready_text refl

  both :
      (a b : Bool) {n : ℕ}
      → n ≡ (if a && b then 200 else 503)
      → ((n ≡ 200) ↔ ((a ≡ true) × (b ≡ true))) × ((n ≡ 200) ⊎ (n ≡ 503))
  both a b e = ((λ h. ground arith, λ h. ground arith), ground arith)

  -- Readiness is `200` exactly when the server is marked ready and its content root, if it has
  -- one, is a directory at that moment; otherwise it is `503`. Any method will do.
  pub readyz_iff :
      (state : AppState) (method : Method) (w : W)
      → let status = (route fs kit page state method readyz w).0.response.status in
        ((status ≡ 200) ↔ ((state.ready ≡ true) × IsReadable fs state.content_root w))
        × ((status ≡ 200) ⊎ (status ≡ 503))
  unfolding route
  readyz_iff state method w =
      let (exactly, either) =
        both state.ready (is_readable fs state.content_root w).0
          (readiness-status state method w) in
      let (to, from) = is_readable_iff fs state.content_root w in
      (((λ e. ((exactly.0 e).0, to (exactly.0 e).1)), (λ h. exactly.1 (h.0, from h.1))), either)
