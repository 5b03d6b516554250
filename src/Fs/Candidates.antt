-- ===== src/Fs/Candidates.antt =====
-- src/fs.rs, `validate_relative_path` and `candidate_paths`.
pub mod Safe
pub mod Below
pub mod Errors
use tiny_httpd.Base.{
  ◌≡◌, refl, Bool, true, false, ◌&&◌, not, List, [], ◌∷◌, ◌++◌, if◌then◌else◌, Bytes, codes, Result,
  ok, err, ◌>>=◌, ◌>>◌, fail_if, bytes_eq, begins_with, ends_with, has_prefix, contains,
}
use tiny_httpd.Fs.Error.{ResolveError, bad_target, traversal}
use tiny_httpd.Fs.FilePath.{Component, root_dir, cur_dir, parent_dir, normal, components, join}
use tiny_httpd.Fs.Decode.{decode_percent_path}

-- The `for` loop over the components.
unfoldable pub validate_components : List Component → Result ResolveError (Unit {0})
validate_components [] = ok tt
validate_components (normal _ ∷ cs) = validate_components cs
validate_components (cur_dir ∷ cs) = validate_components cs
validate_components (parent_dir ∷ cs) = err traversal
validate_components (root_dir ∷ cs) = err bad_target

unfoldable pub validate_relative_path : Bytes → Result ResolveError (Unit {0})
unfolding validate_components components
validate_relative_path relative = validate_components (components relative)

abbrev pub index_html : Bytes
index_html = codes "index.html"

-- `&decoded[1..]`; the caller has seen that the first byte is a slash.
abbrev pub strip_slash : Bytes → Bytes
strip_slash [] = []
strip_slash (c ∷ s) = s

unfoldable pub choose_candidates : Bytes → Bytes → List Bytes
unfolding bytes_eq ends_with join
choose_candidates decoded relative =
    if bytes_eq relative []
    then index_html ∷ []
    else if ends_with b'/' decoded
    then join relative index_html ∷ []
    else relative ∷ join relative index_html ∷ []

-- What `candidate_paths` does once the path is decoded.
unfoldable pub candidates_of_decoded : Bytes → Result ResolveError (List Bytes)
unfolding begins_with bytes_eq has_prefix contains validate_relative_path choose_candidates
candidates_of_decoded decoded = do
  fail_if (not (begins_with b'/' decoded)) bad_target
  fail_if (not (bytes_eq decoded (codes "/")) && has_prefix (codes "//") decoded) bad_target
  let relative = strip_slash decoded
  fail_if (contains (codes "//") relative) bad_target
  validate_relative_path relative
  ok (choose_candidates decoded relative)

unfoldable pub candidate_paths : Bytes → Result ResolveError (List Bytes)
unfolding begins_with candidates_of_decoded
candidate_paths request_path = do
  fail_if (not (begins_with b'/' request_path)) bad_target
  decoded ← decode_percent_path request_path
  candidates_of_decoded decoded
