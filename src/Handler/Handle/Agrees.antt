-- ===== src/Handler/Handle/Agrees.antt =====
-- What `handle_with_peer_addr` of src/handler/routing.rs leaves in the span and in the metrics.
use tiny_httpd.Base.{
  ℕ, ◌/◌, ◌^◌, ◌-◌, min, ◌≡◌, ◌⊎◌, inl, inr, refl, Bool, Option, some, ◌∷◌, ◌++◌, Bytes, codes,
  arith, append_assoc, ◌∙◌, subst, sym,
}
use tiny_httpd.Fs.System.{FileSystem}
use tiny_httpd.Fs.Error.{not_found, io}
use tiny_httpd.Metrics.{Log, Attributes, in_flight_up, request_started, status_class}
use tiny_httpd.Handler.Http.{Method, method_name, number, Toolkit, IsLawful, is_head}
use tiny_httpd.Handler.State.{AppState}
use tiny_httpd.Handler.Response.{content_length}
use tiny_httpd.Handler.Routing.{route}
use tiny_httpd.Handler.Routing.Measured.{find_header, route-IsMeasured}
use tiny_httpd.Handler.Routing.Table.{
  Reply, alive, ready, unready, draining, no_method, welcome, missing, serves, fails, render,
}
use tiny_httpd.Handler.Routing.Table.Answered.{route-Answered}
use tiny_httpd.Handler.Handle.{handle_with_peer_addr, recorded, duration_us}
use tiny_httpd.Handler.Handle.InFlight.{completion, complete_lem}

-- The classes that the server answers with.
abbrev pub IsClass : Bytes → Type 0
IsClass c = (c ≡ codes "2xx") ⊎ (c ≡ codes "4xx") ⊎ (c ≡ codes "5xx")

render-IsClass :
    {File : Type 0} (kit : Toolkit File) (page : Bytes) (h : Bool) (reply : Reply File)
    → IsClass (status_class (render kit page h reply).response.status)
unfolding render status_class
render-IsClass kit page h alive = inl refl
render-IsClass kit page h ready = inl refl
render-IsClass kit page h unready = inr (inr refl)
render-IsClass kit page h draining = inr (inr refl)
render-IsClass kit page h no_method = inr (inl refl)
render-IsClass kit page h welcome = inl refl
render-IsClass kit page h missing = inr (inl refl)
render-IsClass kit page h (serves r) = inl refl
render-IsClass kit page h (fails not_found) = inr (inl refl)
render-IsClass kit page h (fails (io e)) = inr (inr refl)
render-IsClass kit page h (fails e) = inr (inl refl)

duration_us-min : (elapsed : ℕ) → duration_us elapsed ≡ min (elapsed / 1000) (2 ^ 64 - 1)
unfolding duration_us
duration_us-min elapsed = ground arith

module _ {W File : Type 0} (fs : FileSystem W File) (kit : Toolkit File) (law : IsLawful kit)
    (page : Bytes) (state : AppState) (method : Method) (path : Bytes) (w : W) where
  -- The span, the metrics and the response of a request agree: one status code, one class, which is
  -- `2xx`, `4xx` or `5xx`, and one size, which is the content length too. The gauge goes up and
  -- down, and the counter and both histograms get one entry each. The duration in the span is that
  -- in the metrics in whole microseconds, or the largest number of 64 bits where they are more. The
  -- response builder keeps its documented contract.
  pub handle_agrees :
      (peer_addr : Option Bytes) (elapsed : ℕ) (log : Log)
      → let h = handle_with_peer_addr fs kit page state method path peer_addr elapsed w log in
        let attributes : Attributes = record {
          request_method = method_name method;
          status_class = h.fields.status_class;
        } in
        (h.fields.status_code ≡ h.response.status)
        × (h.fields.status_class ≡ status_class h.response.status)
        × IsClass h.fields.status_class
        × (find_header content_length h.response.headers ≡ some (number h.fields.body_size))
        × (h.log ≡ log ++ in_flight_up ∷ completion attributes elapsed h.fields.body_size)
        × (h.fields.duration_us ≡ min (elapsed / 1000) (2 ^ 64 - 1))
  unfolding handle_with_peer_addr recorded request_started
  handle_agrees peer_addr elapsed log =
      let o = route fs kit page state method path w in
      let (reply, rule, same) = route-Answered fs kit law page state method path w in
      (
        refl,
        refl,
        subst (λ r. IsClass (status_class r.response.status)) (sym same)
            (render-IsClass kit page (is_head method) reply),
        (route-IsMeasured kit law fs page state method path w).declared,
        complete_lem _ method o.0 elapsed _ refl ∙ append_assoc log _ _,
        duration_us-min elapsed,
      )
