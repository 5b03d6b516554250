-- ===== src/Fs/Resolve/Contained.antt =====
-- Nothing outside the content root is touched by `resolve_file` of src/fs.rs.
use tiny_httpd.Base.{
  ℕ, ◌+◌, ◌≡◌, ◌≢◌, sym, subst, ap, Bool, true, false, ◌&&◌, List, [], ◌∷◌, ◌==◌, Bytes, Result,
  length, All, arith, inl, inr, Result-cases,
}
use tiny_httpd.Fs.Error.{ResolveError}
use tiny_httpd.Fs.FilePath.{join, starts_with}
use tiny_httpd.Fs.FilePath.Join.{starts_with-join}
use tiny_httpd.Fs.Candidates.{candidate_paths}
use tiny_httpd.Fs.Candidates.Safe.{IsSafe, candidate_paths-IsSafe}
use tiny_httpd.Fs.System.{FileSystem, Call, call_path, recording}
use tiny_httpd.Fs.Resolve.{
  ResolvedFile, Round, next, lookup, round, resolve_loop, resolve_file, after_round_keeps,
  resolve_file_accepted, resolve_file_refused,
}

abbrev pub IsWithin : Bytes → Call → Type 0
IsWithin root call = starts_with (call_path call) root ≡ true

module _ {W File : Type 0} (fs : FileSystem W File) (root : Bytes) where
  abbrev Log : Type 0
  Log = W × List Call

  lookup-IsWithin :
      (is_first allow : Bool) (candidate : Bytes) (s : Log)
      → starts_with (join root candidate) root ≡ true
      → All (IsWithin root) s.1
      → All (IsWithin root) (lookup (recording fs) root is_first allow candidate s).1.1
  unfolding lookup recording
  lookup-IsWithin is_first allow candidate s j h = ground arith

  round-IsWithin :
      (two : Bool) (index : ℕ) (allow : Bool) (candidate : Bytes) (s : Log)
      → starts_with (join root candidate) root ≡ true
      → All (IsWithin root) s.1
      → All (IsWithin root) (round (recording fs) root two index allow candidate s).1.1
  unfolding round
  round-IsWithin two index allow candidate s j h =
      ground (arith, lookup-IsWithin (index == 0 && two) allow candidate s j h)

  resolve_loop-IsWithin :
      (two : Bool) (index : ℕ) (allow : Bool) (candidates : List Bytes) (s : Log)
      → root ≢ []
      → All IsSafe candidates
      → All (IsWithin root) s.1
      → All (IsWithin root) (resolve_loop (recording fs) root two index allow candidates s).1.1
  unfolding resolve_loop
  resolve_loop-IsWithin two index allow [] s r k h = h
  resolve_loop-IsWithin two index allow (candidate ∷ candidates) s r (k, ks) h =
      after_round_keeps (λ o. All (IsWithin root) o.1.1)
        (round (recording fs) root two index allow candidate s)
        (λ allow' t. resolve_loop (recording fs) root two (index + 1) allow' candidates t)
        (λ allow' t e.
          resolve_loop-IsWithin two (index + 1) allow' candidates t r ks (kept allow' t e))
        (λ x t e. rw (ap (λ (o : Round File × Log). o.1.1) e) at logged_before)
    where
      logged_before :
          All (IsWithin root) (round (recording fs) root two index allow candidate s).1.1
      logged_before =
          round-IsWithin two index allow candidate s (starts_with-join root candidate r k.relative)
            h

      kept :
          (allow' : Bool) (t : Log)
          → round (recording fs) root two index allow candidate s ≡ (next allow', t)
          → All (IsWithin root) t.1
      kept allow' t e = rw (ap (λ (o : Round File × Log). o.1.1) e) at logged_before

  -- Whatever the file system answers, and however it changes under way, each path that is looked
  -- up, inspected or opened for a request lies in the content root by its components, on every
  -- branch, the failing ones included.
  pub resolve_file_contained :
      (path : Bytes) (w : W)
      → root ≢ []
      → All (IsWithin root) (resolve_file (recording fs) root path (w, [])).1.1
  resolve_file_contained path w r = elim (Result-cases (candidate_paths path)) [
    | inl (candidates, accepted) ↦
        subst (λ (o : Result ResolveError (ResolvedFile File) × Log). All (IsWithin root) o.1.1)
          (sym (resolve_file_accepted (recording fs) root path (w, []) accepted))
          (resolve_loop-IsWithin (length candidates == 2) 0 false candidates (w, []) r
            (candidate_paths-IsSafe path accepted) tt)
    | inr (e, refused) ↦
        subst (λ (o : Result ResolveError (ResolvedFile File) × Log). All (IsWithin root) o.1.1)
          (sym (resolve_file_refused (recording fs) root path (w, []) refused)) tt
  ]
