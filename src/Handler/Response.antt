-- ===== src/Handler/Response.antt =====
-- src/handler/response.rs and src/handler/default_page.rs. Boxing a body changes nothing, so
-- `full_body`, `empty_response_body` and `stream_body` are the constructors of `Body`; Frames has
-- what each sends. The text of src/default_index.html is a parameter.
pub mod Built
pub mod Frames
use tiny_httpd.Base.{
  ℕ, Bool, true, false, Option, none, some, List, [], ◌∷◌, ◌++◌, if◌then◌else◌, Bytes, codes,
  Result, ok, err, length,
}
use tiny_httpd.Fs.Error.{ResolveError}
use tiny_httpd.Fs.System.{FileSystem}
use tiny_httpd.Fs.Resolve.{ResolvedFile, resolve_file}
use tiny_httpd.Handler.Http.{
  HeaderValue, text, number, Header, Body, empty, full, stream, Response, Toolkit,
}

pub record ResponseOutcome (File : Type 0) : Type 0 where
  pub response : Response File
  pub body_size : ℕ

abbrev pub content_type : Bytes
content_type = codes "content-type"

abbrev pub content_length : Bytes
content_length = codes "content-length"

abbrev pub plain_text : Bytes
plain_text = codes "text/plain; charset=utf-8"

-- The `for` loop over the extra headers; `builder.header` appends.
unfoldable pub append_headers : List Header → List (Bytes × Bytes) → List Header
append_headers built [] = built
append_headers built ((name, value) ∷ headers) =
    append_headers (built ++ (name, text value) ∷ []) headers

abbrev pub internal_error : Bytes
internal_error = codes "internal server error\n"

module _ {File : Type 0} (kit : Toolkit File) where
  unfoldable pub internal_error_response : ResponseOutcome File
  internal_error_response =
      let response =
        elim (kit.build 500
            ((content_type, text plain_text)
              ∷ (content_length, number (length internal_error))
              ∷ [])
            (full internal_error))
          as (λ _. Response File) [ some built ↦ built | none ↦ kit.plain (full internal_error) ] in
      record { response = response; body_size = length internal_error }

  -- The tail that the builders of responses share: `Ok` is wrapped with the size, `Err` replaced.
  unfoldable pub outcome_of : Option (Response File) → ℕ → ResponseOutcome File
  unfolding internal_error_response
  outcome_of (some response) size = record { response = response; body_size = size }
  outcome_of none size = internal_error_response

  unfoldable pub text_response_with_headers :
      ℕ → Bytes → List (Bytes × Bytes) → ResponseOutcome File
  unfolding append_headers outcome_of
  text_response_with_headers status body headers =
      outcome_of
        (kit.build status
          (append_headers
            ((content_type, text plain_text) ∷ (content_length, number (length body)) ∷ []) headers)
          (full body))
        (length body)

  unfoldable pub text_response : ℕ → Bytes → ResponseOutcome File
  unfolding text_response_with_headers
  text_response status body = text_response_with_headers status body []

  unfoldable pub default_index_outcome : Bytes → Bool → ResponseOutcome File
  unfolding outcome_of
  default_index_outcome page head_only =
      outcome_of
        (kit.build 200
          ((content_type, text (codes "text/html; charset=utf-8"))
            ∷ (content_length, number (length page))
            ∷ [])
          (if head_only then empty else full page))
        (length page)

  -- `file_response` behind the `?` on `resolve_file`.
  unfoldable pub resolved_response : ResolvedFile File → Bool → ResponseOutcome File
  unfolding outcome_of
  resolved_response resolved head_only =
      outcome_of
        (kit.build 200
          ((content_type, text (kit.mime resolved.canonical_path))
            ∷ (content_length, number resolved.content_length)
            ∷ [])
          (if head_only then empty else stream resolved.file))
        resolved.content_length

  -- The `?` on `resolve_file`, and what follows it.
  unfoldable pub file_outcome :
      Result ResolveError (ResolvedFile File) → Bool → Result ResolveError (ResponseOutcome File)
  unfolding resolved_response
  file_outcome (err e) head_only = err e
  file_outcome (ok r) head_only = ok (resolved_response r head_only)

  unfoldable pub file_response :
      {W : Type 0}
      → FileSystem W File
      → Bytes
      → Bytes
      → Bool
      → W
      → Result ResolveError (ResponseOutcome File) × W
  unfolding resolve_file file_outcome
  file_response fs content_root path head_only w =
      let (resolved, w') = resolve_file fs content_root path w in
      (file_outcome resolved head_only, w')
