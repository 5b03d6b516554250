-- ===== src/Handler/Http.antt =====
-- What src/handler/ takes from the crates `hyper` and `mime_guess`. The response builder and the
-- media type table are parameters, with their documented behaviour as `IsLawful`.
use tiny_httpd.Base.{
  leb, ltb, ◌&&◌, true, ℕ, ◌≤◌, ◌≡◌, ◌≢◌, ◌⊎◌, Option, some, List, [], Bytes, codes, All, Bool,
  true, false,
}

-- `hyper::Method`: the two that the program names, and any other by its name.
pub data Method : Type 0 where
  get head : Method
  other : Bytes → Method

unfoldable pub is_head : Method → Bool
is_head head = true
is_head _ = false

unfoldable pub is_get : Method → Bool
is_get get = true
is_get _ = false

-- `Method::as_str`.
unfoldable pub method_name : Method → Bytes
method_name get = codes "GET"
method_name head = codes "HEAD"
method_name (other name) = name

-- A `HeaderValue` made from a text, or from an integer, whose decimal digits it is.
pub data HeaderValue : Type 0 where
  text : Bytes → HeaderValue
  number : ℕ → HeaderValue

abbrev pub Header : Type 0
Header = Bytes × HeaderValue

-- `ResponseBody`, the boxed body: none, bytes in memory, or a file that is streamed.
pub data Body (File : Type 0) : Type 0 where
  empty : Body File
  full : Bytes → Body File
  stream : File → Body File

pub record Response (File : Type 0) : Type 0 where
  pub status : ℕ
  pub headers : List Header
  pub body : Body File

-- `build` is `Response::builder()` with a status, headers and a body, `none` for its error;
-- `plain` is `Response::new`; `mime` is `mime_guess::from_path(…).first_or_octet_stream()` as
-- text.
pub record Toolkit (File : Type 0) : Type 0 where
  pub build : ℕ → List Header → Body File → Option (Response File)
  pub plain : Body File → Response File
  pub mime : Bytes → Bytes

-- The characters that every header value may hold, and those of a header name in lower case.
abbrev pub IsPrintable : ℕ → Type 0
IsPrintable c = (b' ' ≤ c) × (c ≤ b'~')

abbrev pub IsNameByte : ℕ → Type 0
IsNameByte c = ((b'a' ≤ c) × (c ≤ b'z')) ⊎ (c ≡ b'-')

abbrev pub IsHeaderText : HeaderValue → Type 0
IsHeaderText (text t) = All IsPrintable t
IsHeaderText (number n) = Unit

abbrev pub IsHeader : Header → Type 0
IsHeader h = (h.0 ≢ []) × All IsNameByte h.0 × IsHeaderText h.1

-- The status codes that `StatusCode` can hold.
abbrev pub IsStatus : ℕ → Type 0
IsStatus status = (leb 100 status && ltb status 1000) ≡ true

pub record IsLawful {File : Type 0} (kit : Toolkit File) : Type 0 where
  pub builds :
      (status : ℕ) (headers : List Header) (body : Body File)
      → IsStatus status
      → All IsHeader headers
      → kit.build status headers body
        ≡ some (record { status = status; headers = headers; body = body })
  pub mime_printable : (path : Bytes) → All IsPrintable (kit.mime path)
