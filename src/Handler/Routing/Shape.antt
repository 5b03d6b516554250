-- ===== src/Handler/Routing/Shape.antt =====
-- The answers of src/handler/routing.rs as built responses, under a lawful response builder.
use tiny_httpd.Base.{refl, ℕ, ◌≡◌, Bool, true, false, [], if◌then◌else◌, Bytes, codes, length}
use tiny_httpd.Fs.Error.{ResolveError, not_found, io}
use tiny_httpd.Handler.Http.{IsStatus, empty, full, Toolkit, IsLawful}
use tiny_httpd.Handler.Response.{plain_text}
use tiny_httpd.Handler.Response.Built.{built, text_response_lem}
use tiny_httpd.Handler.Routing.{not_found_text, probe_response, map_file_error}

-- The status and text of a failed lookup.
unfoldable pub error_status : ResolveError → ℕ
error_status not_found = 404
error_status (io e) = 500
error_status _ = 400

unfoldable pub error_text : ResolveError → Bytes
error_text not_found = not_found_text
error_text (io e) = codes "internal server error\n"
error_text _ = codes "bad request\n"

module _ {File : Type 0} (kit : Toolkit File) (law : IsLawful kit) where
  pub probe_response_lem :
      (head_only : Bool) (status : ℕ) (body : Bytes)
      → IsStatus status
      → probe_response kit head_only status body
        ≡ built status plain_text (length body) [] (if head_only then empty else full body)
  unfolding probe_response
  probe_response_lem true status body valid = rw (text_response_lem kit law status body valid)
  probe_response_lem false status body valid = text_response_lem kit law status body valid

  pub map_file_error_lem :
      (e : ResolveError)
      → map_file_error kit e
        ≡ built (error_status e) plain_text (length (error_text e)) [] (full (error_text e))
  unfolding map_file_error error_status error_text
  map_file_error_lem not_found = text_response_lem kit law 404 _ refl
  map_file_error_lem (io e) = text_response_lem kit law 500 _ refl
  map_file_error_lem _ = text_response_lem kit law 400 _ refl
