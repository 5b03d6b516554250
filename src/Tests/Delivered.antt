-- ===== src/Tests/Delivered.antt =====
-- A file of a small content root, from the request path to the bytes that arrive.
use tiny_httpd.Base.{◌≡◌, refl, ap, some, List, [], ◌∷◌, Bytes, codes, ok, arith}
use tiny_httpd.Fs.Candidates.{candidate_paths}
use tiny_httpd.Fs.Resolve.Found.{Finds, resolve_file_iff}
use tiny_httpd.Fs.System.{static}
use tiny_httpd.Handler.Http.{get, is_head, number, text}
use tiny_httpd.Handler.Response.{content_length, content_type}
use tiny_httpd.Handler.Response.Frames.{Items, frames, received, in_front, all_read}
use tiny_httpd.Handler.Routing.{route}
use tiny_httpd.Handler.Routing.Measured.{find_header}
use tiny_httpd.Handler.Routing.Delivered.{
  IsReadAs, IsSized, IsDelivered, route-IsDelivered, file_delivered,
}
use tiny_httpd.Handler.Routing.Table.{IsContentPath}
use tiny_httpd.Tests.Site.{site, disk, site_root, kit, kit-IsLawful, serving}
use tiny_httpd.Tests.Paths.{docs_index, docs_found}

abbrev page : Bytes
page = codes "<html>"

-- A file is read byte by byte.
abbrev bytewise : Bytes → Items
bytewise [] = []
bytewise (b ∷ bytes) = ok (b ∷ []) ∷ bytewise bytes

bytewise-IsReadAs : IsReadAs bytewise (λ file. file)
unfolding all_read
bytewise-IsReadAs [] = refl
bytewise-IsReadAs (b ∷ bytes) = ap (in_front (b ∷ [])) (bytewise-IsReadAs bytes)

site-IsSized : IsSized site (λ file. file)
unfolding site
site-IsSized path info file known regular opens = ground arith

docs_content : IsContentPath (codes "/docs")
docs_content = ((λ e. cc), (λ e. cc))

route-IsDelivered_example :
    IsDelivered bytewise (route (static site) kit page serving get (codes "/docs") tt).0
unfolding is_head
route-IsDelivered_example =
    route-IsDelivered site bytewise (λ file. file) bytewise-IsReadAs site-IsSized kit kit-IsLawful
      page serving get (codes "/docs") refl

docs-Finds :
    (candidates : List Bytes) × (candidate_paths (codes "/docs") ≡ ok candidates)
    × Finds site site_root candidates docs_index
unfolding static disk
docs-Finds = (resolve_file_iff site site_root (codes "/docs") docs_index).0 docs_found

file_delivered_example :
    let response = (route (static site) kit page serving get (codes "/docs") tt).0.response in
    (response.status ≡ 200)
    × (find_header content_type response.headers ≡ some (text (codes "text/html")))
    × (find_header content_length response.headers ≡ some (number 3))
    × (received (frames bytewise response.body) ≡ some (codes "<p>"))
file_delivered_example =
    file_delivered site bytewise (λ file. file) bytewise-IsReadAs site-IsSized kit kit-IsLawful page
      serving docs_index docs_content refl refl docs-Finds.1 docs-Finds.2
