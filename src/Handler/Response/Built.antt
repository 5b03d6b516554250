-- ===== src/Handler/Response/Built.antt =====
-- What the builders of src/handler/response.rs and default_page.rs give when the response builder
-- of `hyper` keeps its contract: the headers that the program writes are always accepted.
use tiny_httpd.Base.{
  refl, ℕ, ◌≡◌, Bool, List, [], ◌∷◌, if◌then◌else◌, Bytes, codes, length, All, arith,
}
use tiny_httpd.Fs.Resolve.{ResolvedFile}
use tiny_httpd.Handler.Http.{
  IsStatus, text, number, Header, Body, empty, full, stream, Toolkit, IsLawful, IsPrintable,
  IsNameByte, IsHeader,
}
use tiny_httpd.Handler.Response.{
  ResponseOutcome, content_type, content_length, plain_text, outcome_of, text_response_with_headers,
  text_response, default_index_outcome, resolved_response,
}

-- A response with a content type, a content length and perhaps more headers.
abbrev pub built : {File : Type 0} → ℕ → Bytes → ℕ → List Header → Body File → ResponseOutcome File
built status media size more body = record {
  response = record {
    status = status;
    headers = (content_type, text media) ∷ (content_length, number size) ∷ more;
    body = body;
  };
  body_size = size;
}

abbrev pub allow_headers : List Header
allow_headers = (codes "allow", text (codes "GET, HEAD")) ∷ []

content_type-names : All IsNameByte content_type
content_type-names = omega arith

content_length-names : All IsNameByte content_length
content_length-names = omega arith

pub built-IsHeader :
    (media : Bytes) (size : ℕ) (more : List Header)
    → All IsPrintable media
    → All IsHeader more
    → All IsHeader ((content_type, text media) ∷ (content_length, number size) ∷ more)
built-IsHeader media size more ok_media ok_more =
    (((λ e. cc), content_type-names, ok_media), (((λ e. cc), content_length-names, tt), ok_more))

module _ {File : Type 0} (kit : Toolkit File) (law : IsLawful kit) where
  outcome_of-build :
      (status : ℕ) (media : Bytes) (size : ℕ) (more : List Header) (body : Body File)
      → IsStatus status
      → All IsPrintable media
      → All IsHeader more
      → outcome_of kit
          (kit.build status
            ((content_type, text media) ∷ (content_length, number size) ∷ more)
            body)
          size
        ≡ built status media size more body
  unfolding outcome_of
  outcome_of-build status media size more body valid ok_media ok_more = rw (
      law.builds status ((content_type, text media) ∷ (content_length, number size) ∷ more) body
        valid (built-IsHeader media size more ok_media ok_more))

  pub text_response_lem :
      (status : ℕ) (body : Bytes)
      → IsStatus status
      → text_response kit status body ≡ built status plain_text (length body) [] (full body)
  unfolding text_response
  text_response_lem status body valid =
      outcome_of-build status plain_text (length body) [] (full body) valid (omega arith) tt

  pub not_allowed_lem :
      (body : Bytes)
      → text_response_with_headers kit 405 body ((codes "allow", codes "GET, HEAD") ∷ [])
        ≡ built 405 plain_text (length body) allow_headers (full body)
  unfolding text_response_with_headers
  not_allowed_lem body =
      outcome_of-build 405 plain_text (length body) allow_headers (full body) refl (omega arith)
        (((λ e. cc), omega arith, omega arith), tt)

  pub default_index_outcome_lem :
      (page : Bytes) (head_only : Bool)
      → default_index_outcome kit page head_only
        ≡ built 200
            (codes "text/html; charset=utf-8")
            (length page)
            []
            (if head_only then empty else full page)
  unfolding default_index_outcome
  default_index_outcome_lem page head_only =
      outcome_of-build 200 (codes "text/html; charset=utf-8") (length page) []
        (if head_only then empty else full page) refl (omega arith) tt

  pub resolved_response_lem :
      (r : ResolvedFile File) (head_only : Bool)
      → resolved_response kit r head_only
        ≡ built 200
            (kit.mime r.canonical_path)
            r.content_length
            []
            (if head_only then empty else stream r.file)
  unfolding resolved_response
  resolved_response_lem r head_only =
      outcome_of-build 200 (kit.mime r.canonical_path) r.content_length []
        (if head_only then empty else stream r.file) refl (law.mime_printable r.canonical_path) tt
