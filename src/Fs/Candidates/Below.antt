-- ===== src/Fs/Candidates/Below.antt =====
-- Where a candidate of src/fs.rs lies once it is joined to the content root.
use tiny_httpd.Base.{
  ◌≡◌, ◌≢◌, ◌||◌, Bool, true, false, List, [], ◌∷◌, ◌++◌, if◌then◌else◌, Bytes, codes, bytes_eq,
  All, inl, inr,
}
use tiny_httpd.Fs.FilePath.{
  Component, parent_dir, normal, pieces, component, body, components, join,
}
use tiny_httpd.Fs.FilePath.Join.{components-join, components-relative}
use tiny_httpd.Fs.Candidates.Safe.{Stays, IsName, IsSafe}

component-IsName :
    (skipped climbs : Bool) (p : Bytes) (cs : List Component)
    → All Stays ((if skipped then [] else if climbs then parent_dir ∷ [] else normal p ∷ []) ++ cs)
    → (All Stays cs → All IsName cs)
    → All IsName ((if skipped then [] else if climbs then parent_dir ∷ [] else normal p ∷ []) ++ cs)
component-IsName true climbs p cs h k = k h
component-IsName false true p cs h k = absurd h.0
component-IsName false false p cs h k = (tt, k h.1)

body-IsName : (ps : List Bytes) → All Stays (body ps) → All IsName (body ps)
unfolding body component
body-IsName [] h = tt
body-IsName (p ∷ ps) h =
    component-IsName (bytes_eq p [] || bytes_eq p (codes ".")) (bytes_eq p (codes "..")) p (body ps)
      h (body-IsName ps)

-- Joined to a content root, a safe candidate adds names below it and nothing else.
pub IsSafe-below :
    (root candidate : Bytes)
    → root ≢ []
    → IsSafe candidate
    → (names : List Component) × (components (join root candidate) ≡ components root ++ names)
      × All IsName names
IsSafe-below root candidate h k = (
  body (pieces candidate),
  components-join root candidate h k.relative,
  body-IsName (pieces candidate) (elim (components-relative candidate k.relative) [
    | inl same ↦ rw same at k.stays
    | inr dotted ↦ (rw dotted at k.stays).1
  ]),
)
