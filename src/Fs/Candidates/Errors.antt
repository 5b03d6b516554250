-- ===== src/Fs/Candidates/Errors.antt =====
-- The errors of `candidate_paths` in src/fs.rs: those of a malformed path, and no other.
use tiny_httpd.Base.{
  ℕ, ◌≡◌, Bool, true, false, List, [], ◌∷◌, ◌++◌, Bytes, err, arith, inl, inr, Result-cases,
}
use tiny_httpd.Fs.Error.{ResolveError, escape, not_found, io}
use tiny_httpd.Fs.Utf8.{from_utf8}
use tiny_httpd.Fs.Decode.{decode_escape, decode_from, decode_percent_path}
use tiny_httpd.Fs.FilePath.{Component, components}
use tiny_httpd.Fs.Candidates.{
  validate_components, validate_relative_path, strip_slash, candidates_of_decoded, candidate_paths,
}

-- The path itself is at fault.
unfoldable pub is_refusal : ResolveError → Bool
is_refusal not_found = false
is_refusal (io e) = false
is_refusal escape = false
is_refusal _ = true

decode_escape-refusal :
    (c d : ℕ) (e : ResolveError) → decode_escape c d ≡ err e → is_refusal e ≡ true
unfolding decode_escape is_refusal
decode_escape-refusal c d e h = ground arith

decode_from-refusal :
    (bs decoded : Bytes) (e : ResolveError) → decode_from bs decoded ≡ err e → is_refusal e ≡ true
unfolding decode_from is_refusal
decode_from-refusal [] decoded e h = cc
decode_from-refusal (b ∷ []) decoded e h = ground arith
decode_from-refusal (b ∷ c ∷ []) decoded e h =
    ground (arith, decode_from-refusal (c ∷ []) (decoded ++ b ∷ []) e)
decode_from-refusal (b ∷ c ∷ d ∷ bs) decoded e h = elim (Result-cases (decode_escape c d)) [
  | inl (byte, good) ↦ ground (
    arith,
    good,
    decode_from-refusal (c ∷ d ∷ bs) (decoded ++ b ∷ []) e,
    decode_from-refusal bs (decoded ++ byte ∷ []) e,
  )
  | inr (fault, bad) ↦ ground (
    arith,
    bad,
    decode_escape-refusal c d fault bad,
    decode_from-refusal (c ∷ d ∷ bs) (decoded ++ b ∷ []) e,
  )
]

decode_percent_path-refusal :
    (path : Bytes) (e : ResolveError) → decode_percent_path path ≡ err e → is_refusal e ≡ true
unfolding decode_percent_path from_utf8 is_refusal
decode_percent_path-refusal path e h = elim (Result-cases (decode_from path [])) [
  | inl (raw, good) ↦ ground (arith, good)
  | inr (fault, bad) ↦ ground (arith, bad, decode_from-refusal path [] fault bad)
]

validate_components-refusal :
    (cs : List Component) (e : ResolveError) → validate_components cs ≡ err e → is_refusal e ≡ true
unfolding validate_components is_refusal
validate_components-refusal [] e h = cc
validate_components-refusal (Component.normal p ∷ cs) e h = validate_components-refusal cs e h
validate_components-refusal (Component.cur_dir ∷ cs) e h = validate_components-refusal cs e h
validate_components-refusal (Component.parent_dir ∷ cs) e h = ground arith
validate_components-refusal (Component.root_dir ∷ cs) e h = ground arith

-- A request path is refused only for what it says: its encoding, its slashes or a parent
-- component, never for what is on the disk.
pub candidate_paths-refusal :
    (path : Bytes) (e : ResolveError) → candidate_paths path ≡ err e → is_refusal e ≡ true
unfolding candidate_paths candidates_of_decoded validate_relative_path is_refusal
candidate_paths-refusal path e h = elim (Result-cases (decode_percent_path path)) [
  | inl (decoded, good) ↦
      ground (arith, good, validate_components-refusal (components (strip_slash decoded)) e)
  | inr (fault, bad) ↦ ground (arith, bad, decode_percent_path-refusal path fault bad)
]
