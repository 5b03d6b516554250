-- ===== src/Fs/Candidates/Safe.antt =====
-- What `candidate_paths` of src/fs.rs hands to the file system.
use tiny_httpd.Base.{
  ◌≡◌, ◌≢◌, ◌↔◌, ◌||◌, refl, Bool, true, false, not, ◌&&◌, List, [], ◌∷◌, Bytes, codes, Result, ok,
  ◌>>◌, >>=-eq-ok, fail_if, bytes_eq, begins_with, ends_with, has_prefix, contains, All, All-append,
  arith, Bool-cases, inl, inr,
}
use tiny_httpd.Fs.Error.{ResolveError, bad_target}
use tiny_httpd.Fs.FilePath.{
  Component, root_dir, cur_dir, parent_dir, normal, pieces, component, body, components, join,
}
use tiny_httpd.Fs.FilePath.Join.{components-join}
use tiny_httpd.Fs.Decode.{decode_percent_path}
use tiny_httpd.Fs.Decode.Output.{NoNul, decode_percent_path-IsText}
use tiny_httpd.Fs.Candidates.{
  validate_components, validate_relative_path, index_html, strip_slash, choose_candidates,
  candidates_of_decoded, candidate_paths,
}

-- A component that does not leave the directory it is looked up in.
abbrev pub Stays : Component → Type 0
Stays root_dir = ⊥
Stays cur_dir = Unit
Stays parent_dir = ⊥
Stays (normal _) = Unit

abbrev pub IsName : Component → Type 0
IsName (normal _) = Unit
IsName _ = ⊥

-- A candidate is relative, no component of it climbs, and it holds no NUL.
pub record IsSafe (path : Bytes) : Type 0 where
  pub relative : begins_with b'/' path ≡ false
  pub stays : All Stays (components path)
  pub no_nul : NoNul path

validate_components-Stays : (cs : List Component) → validate_components cs ≡ ok tt → All Stays cs
unfolding validate_components
validate_components-Stays [] h = tt
validate_components-Stays (normal p ∷ cs) h = (tt, validate_components-Stays cs h)
validate_components-Stays (cur_dir ∷ cs) h = (tt, validate_components-Stays cs h)
validate_components-Stays (parent_dir ∷ cs) h = cc
validate_components-Stays (root_dir ∷ cs) h = cc

-- Exactly the paths without a root and without a parent component pass.
pub validate_relative_path_iff :
    (path : Bytes) → (validate_relative_path path ≡ ok tt) ↔ All Stays (components path)
unfolding validate_relative_path
validate_relative_path_iff path =
    (validate_components-Stays (components path), back (components path))
  where
    back : (cs : List Component) → All Stays cs → validate_components cs ≡ ok tt
    back [] h = unfold validate_components in refl
    back (normal p ∷ cs) (_, h) = unfold validate_components in (back cs h)
    back (cur_dir ∷ cs) (_, h) = unfold validate_components in (back cs h)
    back (parent_dir ∷ cs) (h, _) = absurd h
    back (root_dir ∷ cs) (h, _) = absurd h

index_html-body : body (pieces index_html) ≡ normal index_html ∷ []
unfolding body pieces component
index_html-body = refl

begins_with-join :
    (path : Bytes)
    → path ≢ []
    → begins_with b'/' path ≡ false
    → begins_with b'/' (join path index_html) ≡ false
unfolding join begins_with bytes_eq
begins_with-join [] h k = absurd (h refl)
begins_with-join (c ∷ s) h k = ground arith

NoNul-join : (path : Bytes) → NoNul path → NoNul (join path index_html)
unfolding join begins_with bytes_eq
NoNul-join path h = elim (Bool-cases (bytes_eq path [] || ends_with b'/' path)) [
  | inl joined ↦ rw joined (All-append (λ b. b ≢ 0) path index_html h (omega arith))
  | inr apart ↦ rw apart (All-append (λ b. b ≢ 0) path (b'/' ∷ index_html) h (omega arith))
]

join-IsSafe : (path : Bytes) → path ≢ [] → IsSafe path → IsSafe (join path index_html)
unfolding begins_with
join-IsSafe path h k = record {
  relative = begins_with-join path h k.relative;
  stays =
      rw (components-join path index_html h refl, index_html-body)
        (All-append Stays (components path) (normal index_html ∷ []) k.stays (tt, tt));
  no_nul = NoNul-join path k.no_nul;
}

index_html-IsSafe : IsSafe index_html
unfolding begins_with components
index_html-IsSafe = record { relative = refl; stays = (tt, tt); no_nul = ground arith }

choose_candidates-IsSafe :
    (decoded relative : Bytes) → IsSafe relative → All IsSafe (choose_candidates decoded relative)
unfolding choose_candidates bytes_eq
choose_candidates-IsSafe decoded [] k = (index_html-IsSafe, tt)
choose_candidates-IsSafe decoded (c ∷ s) k = elim (Bool-cases (ends_with b'/' decoded)) [
  | inl directory ↦ rw directory (join-IsSafe (c ∷ s) (cc) k, tt)
  | inr file ↦ rw file (k, (join-IsSafe (c ∷ s) (cc) k, tt))
]

no_second_slash :
    (decoded : Bytes)
    → begins_with b'/' decoded ≡ true
    → (not (bytes_eq decoded (codes "/")) && has_prefix (codes "//") decoded) ≡ false
    → begins_with b'/' (strip_slash decoded) ≡ false
unfolding begins_with bytes_eq has_prefix
no_second_slash [] h k = cc
no_second_slash (c ∷ []) h k = refl
no_second_slash (c ∷ d ∷ s) h k = ground arith

NoNul-strip_slash : (decoded : Bytes) → NoNul decoded → NoNul (strip_slash decoded)
NoNul-strip_slash [] h = tt
NoNul-strip_slash (c ∷ s) (_, h) = h

-- What a decoded path has passed when it gives candidates.
pub record Accepted (decoded : Bytes) (candidates : List Bytes) : Type 0 where
  pub rooted : begins_with b'/' decoded ≡ true
  pub single : begins_with b'/' (strip_slash decoded) ≡ false
  pub no_double : contains (codes "//") (strip_slash decoded) ≡ false
  pub stays : All Stays (components (strip_slash decoded))
  pub chosen : choose_candidates decoded (strip_slash decoded) ≡ candidates

-- The checks in order; a failed one is the result.
module _ (rooted doubled inner : Bool) (valid : Result ResolveError (Unit {0}))
    (cs : List Bytes) where
  checks : Result ResolveError (List Bytes)
  checks = do
    fail_if (not rooted) bad_target
    fail_if doubled bad_target
    fail_if inner bad_target
    valid
    ok cs

  checks-eq-ok :
      {ds : List Bytes}
      → checks ≡ ok ds
      → (rooted ≡ true) × (doubled ≡ false) × (inner ≡ false) × (valid ≡ ok tt) × (cs ≡ ds)
  unfolding checks
  checks-eq-ok h = (ground arith, ground arith, ground arith, ground arith, ground arith)

candidates_of_decoded-Accepted :
    (decoded : Bytes) {candidates : List Bytes}
    → candidates_of_decoded decoded ≡ ok candidates
    → Accepted decoded candidates
unfolding candidates_of_decoded checks
candidates_of_decoded-Accepted decoded h =
    let (rooted, doubled, inner, valid, chosen) =
      checks-eq-ok (begins_with b'/' decoded)
        (not (bytes_eq decoded (codes "/")) && has_prefix (codes "//") decoded)
        (contains (codes "//") (strip_slash decoded)) (validate_relative_path (strip_slash decoded))
        (choose_candidates decoded (strip_slash decoded)) h in
    record {
      rooted = rooted;
      single = no_second_slash decoded rooted doubled;
      no_double = inner;
      stays = (validate_relative_path_iff (strip_slash decoded)).0 valid;
      chosen = chosen;
    }

candidates_of_decoded-IsSafe :
    (decoded : Bytes) {candidates : List Bytes}
    → NoNul decoded
    → candidates_of_decoded decoded ≡ ok candidates
    → All IsSafe candidates
candidates_of_decoded-IsSafe decoded n h =
    let a = candidates_of_decoded-Accepted decoded h in
    rw (← a.chosen) (
      choose_candidates-IsSafe decoded (strip_slash decoded)
        (record { relative = a.single; stays = a.stays; no_nul = NoNul-strip_slash decoded n }))

-- Every candidate of an accepted request path is relative, climbs nowhere and holds no NUL,
-- whatever was percent-encoded in the request.
pub candidate_paths-IsSafe :
    (path : Bytes) {candidates : List Bytes}
    → candidate_paths path ≡ ok candidates
    → All IsSafe candidates
unfolding candidate_paths
candidate_paths-IsSafe path h =
    let (_, _, checked) = >>=-eq-ok (fail_if (not (begins_with b'/' path)) bad_target) _ h in
    let (decoded, decodes, chosen) =
      >>=-eq-ok (decode_percent_path path) candidates_of_decoded checked in
    candidates_of_decoded-IsSafe decoded (decode_percent_path-IsText path decodes).0 chosen

-- There are one or two candidates.
abbrev pub IsOneOrTwo : List Bytes → Type 0
IsOneOrTwo (a ∷ []) = Unit
IsOneOrTwo (a ∷ b ∷ []) = Unit
IsOneOrTwo _ = ⊥

pub candidate_paths-IsOneOrTwo :
    (path : Bytes) {candidates : List Bytes}
    → candidate_paths path ≡ ok candidates
    → IsOneOrTwo candidates
unfolding candidate_paths
candidate_paths-IsOneOrTwo path h =
    let (_, _, checked) = >>=-eq-ok (fail_if (not (begins_with b'/' path)) bad_target) _ h in
    let (decoded, _, chosen) = >>=-eq-ok (decode_percent_path path) candidates_of_decoded checked in
    rw (← (candidates_of_decoded-Accepted decoded chosen).chosen)
      (few decoded (strip_slash decoded))
  where
    few : (decoded relative : Bytes) → IsOneOrTwo (choose_candidates decoded relative)
    few decoded relative =
        unfold choose_candidates in
        (elim (Bool-cases (bytes_eq relative [])) [
          | inl empty ↦ rw empty tt
          | inr filled ↦ elim (Bool-cases (ends_with b'/' decoded)) [
            | inl directory ↦ rw (filled, directory) tt
            | inr file ↦ rw (filled, file) tt
          ]
        ])
