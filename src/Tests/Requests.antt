-- ===== src/Tests/Requests.antt =====
-- src/handler/ and src/metrics.rs at concrete requests.
use tiny_httpd.Base.{◌≡◌, ◌↔◌, ◌⊎◌, refl, true, false, [], ◌∷◌, Bytes, bytes_eq, codes, All, inl}
use tiny_httpd.Fs.System.{recording}
use tiny_httpd.Fs.Resolve.Contained.{IsWithin}
use tiny_httpd.Metrics.{in_flight_up}
use tiny_httpd.Handler.Http.{get, head, other}
use tiny_httpd.Handler.State.{mark_not_ready, mark_shutting_down}
use tiny_httpd.Handler.Routing.{livez, readyz, route}
use tiny_httpd.Handler.Routing.Measured.{IsMeasured, route-IsMeasured}
use tiny_httpd.Handler.Routing.Head.{SameHead, route-head}
use tiny_httpd.Handler.Routing.Probes.{drain_status, route_draining, IsReadable, readyz_iff}
use tiny_httpd.Handler.Routing.Content.{IsContentRequest, route_contained}
use tiny_httpd.Metrics.{status_class, Attributes}
use tiny_httpd.Handler.Http.{method_name, number}
use tiny_httpd.Handler.Response.{content_length}
use tiny_httpd.Handler.Routing.Measured.{find_header}
use tiny_httpd.Handler.Handle.{handle_with_peer_addr}
use tiny_httpd.Handler.Handle.Agrees.{IsClass, handle_agrees}
use tiny_httpd.Handler.Handle.InFlight.{completion}
use tiny_httpd.Base.{none, ◌/◌, ◌^◌, ◌-◌, min, some, ◌++◌}
use tiny_httpd.Tests.Site.{site_root, disk, kit, kit-IsLawful, serving}

abbrev page : Bytes
page = codes "<html>"

route-IsMeasured_example : IsMeasured (route disk kit page serving get (codes "/docs") tt).0
route-IsMeasured_example =
    route-IsMeasured kit kit-IsLawful disk page serving get (codes "/docs") tt

route-head_example :
    SameHead
      (route disk kit page serving get (codes "/docs") tt).0
      (route disk kit page serving head (codes "/docs") tt).0
    × ((route disk kit page serving head (codes "/docs") tt).1
        ≡ (route disk kit page serving get (codes "/docs") tt).1)
route-head_example = route-head kit kit-IsLawful disk page serving (codes "/docs") tt

route_draining_example :
    let o =
      route disk kit page (mark_shutting_down (mark_not_ready serving)) get (codes "/docs") tt in
    (o.0.response.status ≡ drain_status get (codes "/docs")) × (o.1 ≡ tt)
route_draining_example = route_draining disk kit kit-IsLawful page serving get (codes "/docs") tt

readyz_iff_example :
    let status = (route disk kit page serving (other (codes "POST")) readyz tt).0.response.status in
    ((status ≡ 200) ↔ ((serving.ready ≡ true) × IsReadable disk serving.content_root tt))
    × ((status ≡ 200) ⊎ (status ≡ 503))
readyz_iff_example = readyz_iff disk kit kit-IsLawful page serving (other (codes "POST")) tt

route_contained_example :
    All
      (IsWithin site_root)
      (route (recording disk) kit page serving get (codes "/docs") (tt, [])).1.1
route_contained_example =
    route_contained disk kit page site_root serving get (codes "/docs") tt refl (cc)

reads :
    (path : Bytes)
    → bytes_eq path livez ≡ false
    → bytes_eq path readyz ≡ false
    → IsContentRequest site_root serving get path
reads path h k = record {
  rooted = refl;
  serving = refl;
  reads = inl refl;
  no_livez = h;
  no_readyz = k;
}

handle_agrees_example :
    let h = handle_with_peer_addr disk kit page serving get (codes "/docs") none 1500 tt [] in
    let attributes : Attributes = record {
      request_method = method_name get;
      status_class = h.fields.status_class;
    } in
    (h.fields.status_code ≡ h.response.status)
    × (h.fields.status_class ≡ status_class h.response.status)
    × IsClass h.fields.status_class
    × (find_header content_length h.response.headers ≡ some (number h.fields.body_size))
    × (h.log ≡ [] ++ in_flight_up ∷ completion attributes 1500 h.fields.body_size)
    × (h.fields.duration_us ≡ min (1500 / 1000) (2 ^ 64 - 1))
handle_agrees_example =
    handle_agrees disk kit kit-IsLawful page serving get (codes "/docs") tt none 1500 []
