-- ===== src/Tests/Paths.antt =====
-- src/fs.rs at concrete paths.
use tiny_httpd.Base.{
  ◌+◌, ◌*◌, ◌≡◌, ◌↔◌, refl, true, some, List, [], ◌∷◌, ◌++◌, Bytes, codes, ok, err, arith, All,
  length, suc, ◌==◌, Result, ◌>>=◌,
}
use tiny_httpd.Fs.Error.{
  ResolveError, bad_target, invalid_percent_encoding, invalid_utf8, encoded_slash, null_byte,
  traversal,
}
use tiny_httpd.Fs.Utf8.{is_utf8, from_utf8}
use tiny_httpd.Fs.FilePath.{starts_with}
use tiny_httpd.Fs.Decode.{decode_percent_path}
use tiny_httpd.Fs.Decode.Loop.{decode_loop, decode_loop_total}
use tiny_httpd.Fs.Decode.Output.{slashes, NoNul, percents, decode_percent_path_output}
use tiny_httpd.Fs.Decode.RoundTrip.{encode, decode_percent_path-encode}
use tiny_httpd.Fs.Candidates.{candidate_paths, validate_relative_path}
use tiny_httpd.Fs.Candidates.Safe.{IsSafe, candidate_paths-IsSafe}
use tiny_httpd.Fs.System.{static}
use tiny_httpd.Fs.Resolve.{resolve_file, ResolvedFile}
use tiny_httpd.Fs.Resolve.Found.{Finds, resolve_file_iff}
use tiny_httpd.Tests.Site.{site_root, site, disk}

-- Everything that `candidate_paths` computes with.
unfoldable pub paths : Unit {0}
unfolding candidate_paths decode_percent_path from_utf8 is_utf8
paths = tt

accepted_paths :
    (candidate_paths (codes "/") ≡ ok (codes "index.html" ∷ []))
    × (candidate_paths (codes "/docs/") ≡ ok (codes "docs/index.html" ∷ []))
    × (candidate_paths (codes "/docs") ≡ ok (codes "docs" ∷ codes "docs/index.html" ∷ []))
    × (candidate_paths (codes "/space%20name")
        ≡ ok (codes "space name" ∷ codes "space name/index.html" ∷ []))
    × (candidate_paths (codes "/.../") ≡ ok (codes ".../index.html" ∷ []))
unfolding paths
accepted_paths = (refl, refl, refl, refl, refl)

pub refused_paths :
    (candidate_paths (codes "") ≡ err bad_target)
    × (candidate_paths (codes "relative") ≡ err bad_target)
    × (candidate_paths (codes "//double") ≡ err bad_target)
    × (candidate_paths (codes "/double//slash") ≡ err bad_target)
    × (candidate_paths (codes "/%2f") ≡ err encoded_slash)
    × (candidate_paths (codes "/../secret") ≡ err traversal)
    × (candidate_paths (codes "/%2e%2e/secret") ≡ err traversal)
unfolding paths
refused_paths = (refl, refl, refl, refl, refl, refl, refl)

refused_bytes :
    (decode_percent_path (codes "/%zz") ≡ err invalid_percent_encoding)
    × (decode_percent_path (codes "/%") ≡ err invalid_percent_encoding)
    × (decode_percent_path (codes "/%0") ≡ err invalid_percent_encoding)
    × (decode_percent_path (codes "/%00") ≡ err null_byte)
    × (decode_percent_path (codes "/%FF") ≡ err invalid_utf8)
    × (decode_percent_path (codes "/caf%C3%A9") ≡ ok (codes "/caf" ++ 0xc3 ∷ 0xa9 ∷ []))
unfolding paths
refused_bytes = (refl, refl, refl, refl, refl, refl)

validated :
    (validate_relative_path (codes "./nested/file.txt") ≡ ok tt)
    × (validate_relative_path (codes "nested/../file.txt") ≡ err traversal)
    × (validate_relative_path (codes "/absolute") ≡ err bad_target)
unfolding validate_relative_path
validated = (refl, refl, refl)

decode_loop_total_example :
    (r : Result ResolveError Bytes) × (decode_loop
        (suc (length (codes "/a%20b")))
        (codes "/a%20b")
        0
        []
      ≡ some r)
    × (decode_percent_path (codes "/a%20b") ≡ (r >>= from_utf8))
decode_loop_total_example = decode_loop_total (codes "/a%20b")

decode_percent_path_output_example :
    NoNul (codes "/a b/c")
    × (is_utf8 (codes "/a b/c") ≡ true)
    × (slashes (codes "/a b/c") ≡ slashes (codes "/a%20b/c"))
    × (length (codes "/a b/c") + 2 * percents (codes "/a%20b/c") ≡ length (codes "/a%20b/c"))
decode_percent_path_output_example =
    decode_percent_path_output (codes "/a%20b/c") (unfold paths in refl)

-- Every byte but the slash is escaped.
decode_percent_path-encode_example :
    decode_percent_path (encode (λ b. b == b'/') (codes "/a%b")) ≡ ok (codes "/a%b")
decode_percent_path-encode_example =
    decode_percent_path-encode (λ b. b == b'/') (codes "/a%b") (ground arith)
      (unfold is_utf8 in refl)

docs-IsSafe : All IsSafe (codes "docs" ∷ codes "docs/index.html" ∷ [])
docs-IsSafe = candidate_paths-IsSafe (codes "/docs") accepted_paths.2

candidate_paths-IsSafe_example : All IsSafe (codes "docs" ∷ codes "docs/index.html" ∷ [])
candidate_paths-IsSafe_example = candidate_paths-IsSafe (codes "/docs") accepted_paths.2

abbrev pub docs_index : ResolvedFile Bytes
docs_index = record {
  canonical_path = codes "/app/docs/index.html";
  file = codes "<p>";
  content_length = 3;
}

resolve_file_iff_example :
    (resolve_file (static site) site_root (codes "/docs") tt ≡ (ok docs_index, tt)) ↔ (
      (candidates : List Bytes) × (candidate_paths (codes "/docs") ≡ ok candidates)
      × Finds site site_root candidates docs_index)
resolve_file_iff_example = resolve_file_iff site site_root (codes "/docs") docs_index

pub docs_found : resolve_file disk site_root (codes "/docs") tt ≡ (ok docs_index, tt)
unfolding resolve_file paths disk starts_with
docs_found = refl
