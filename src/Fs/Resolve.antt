-- ===== src/Fs/Resolve.antt =====
-- src/fs.rs, `ResolvedFile` and `resolve_file`, over a file system that is a parameter.
pub mod Contained
pub mod Found
use tiny_httpd.Base.{
  ℕ, ◌+◌, ◌≡◌, refl, ap, ◌⊎◌, inl, inr, Bool, true, false, not, ◌&&◌, List, [], ◌∷◌, ◌==◌,
  if◌then◌else◌, Bytes, Result, ok, err, length, arith,
}
use tiny_httpd.Fs.Error.{ResolveError, IoError, is_not_found, escape, not_found, io}
use tiny_httpd.Fs.FilePath.{join, starts_with}
use tiny_httpd.Fs.Candidates.{candidate_paths}
use tiny_httpd.Fs.System.{FileSystem, Metadata}

pub record ResolvedFile (File : Type 0) : Type 0 where
  pub canonical_path : Bytes
  pub file : File
  pub content_length : ℕ

-- What one round of the `for` loop does: go on, with `allow_directory_index_fallback`, or return.
pub data Round (File : Type 0) : Type 0 where
  next : Bool → Round File
  done : Result ResolveError (ResolvedFile File) → Round File

-- The rest of the loop, or the early return.
module _ {W File : Type 0} where
  abbrev pub after_round :
      Round File × W
      → (Bool → W → Result ResolveError (ResolvedFile File) × W)
      → Result ResolveError (ResolvedFile File) × W
  after_round (next allow, w) rest = rest allow w
  after_round (done r, w) rest = (r, w)

  pub after_round_keeps {ℓ} :
      (P : Result ResolveError (ResolvedFile File) × W → Type ℓ) (o : Round File × W)
      (rest : Bool → W → Result ResolveError (ResolvedFile File) × W)
      → ((allow : Bool) (w : W) → o ≡ (next allow, w) → P (rest allow w))
      → ((r : Result ResolveError (ResolvedFile File)) (w : W) → o ≡ (done r, w) → P (r, w))
      → P (after_round o rest)
  after_round_keeps P (next allow, w) rest go stop = go allow w refl
  after_round_keeps P (done r, w) rest go stop = stop r w refl

  pub after_round-eq-ok :
      (o : Round File × W) (rest : Bool → W → Result ResolveError (ResolvedFile File) × W)
      {r : ResolvedFile File} {w : W}
      → after_round o rest ≡ (ok r, w)
      → (o ≡ (done (ok r), w))
        ⊎ ((allow : Bool) × (w' : W) × (o ≡ (next allow, w')) × (rest allow w' ≡ (ok r, w)))
  after_round-eq-ok (next allow, w') rest e = inr (allow, w', refl, e)
  after_round-eq-ok (done x, w') rest e =
      inl (ap (λ (q : Result ResolveError (ResolvedFile File) × W). (done q.0, q.1)) e)

module _ {W File : Type 0} (fs : FileSystem W File) where
  unfoldable pub open_regular : Bytes → Metadata → W → Round File × W
  open_regular canonical m w =
      let (opened, w') = fs.open_file canonical w in
      elim opened [
        | err error ↦ (done (err (io error)), w')
        | ok handle ↦ (
          done (ok (record { canonical_path = canonical; file = handle; content_length = m.len })),
          w',
        )
      ]

  unfoldable pub inspect : Bool → Bool → Bytes → W → Round File × W
  unfolding open_regular
  inspect is_first allow canonical w =
      let (found, w') = fs.metadata canonical w in
      elim found [
        | err error ↦ (done (err (io error)), w')
        | ok m ↦
            if m.is_file
            then open_regular canonical m w'
            else (next (if is_first then m.is_dir else allow), w')
      ]

  unfoldable pub lookup : Bytes → Bool → Bool → Bytes → W → Round File × W
  unfolding inspect
  lookup content_root is_first allow candidate w =
      let (found, w') = fs.canonicalize (join content_root candidate) w in
      elim found [
        | err error ↦ if is_not_found error then (next allow, w') else (done (err (io error)), w')
        | ok canonical ↦
            if starts_with canonical content_root
            then inspect is_first allow canonical w'
            else (done (err escape), w')
      ]

  -- `two` is `candidates.len() == 2`.
  unfoldable pub round : Bytes → Bool → ℕ → Bool → Bytes → W → Round File × W
  unfolding lookup
  round content_root two index allow candidate w =
      if index == 1 && not allow
      then (next allow, w)
      else lookup content_root (index == 0 && two) allow candidate w

  unfoldable pub resolve_loop :
      Bytes → Bool → ℕ → Bool → List Bytes → W → Result ResolveError (ResolvedFile File) × W
  unfolding round
  resolve_loop content_root two index allow [] w = (err not_found, w)
  resolve_loop content_root two index allow (candidate ∷ candidates) w =
      after_round (round content_root two index allow candidate w)
        (λ allow' w'. resolve_loop content_root two (index + 1) allow' candidates w')

  unfoldable pub resolve_file : Bytes → Bytes → W → Result ResolveError (ResolvedFile File) × W
  unfolding resolve_loop
  resolve_file content_root request_path w = elim (candidate_paths request_path) [
    | err e ↦ (err e, w)
    | ok candidates ↦ resolve_loop content_root (length candidates == 2) 0 false candidates w
  ]

  pub resolve_file_accepted :
      (content_root path : Bytes) (w : W) {candidates : List Bytes}
      → candidate_paths path ≡ ok candidates
      → resolve_file content_root path w
        ≡ resolve_loop content_root (length candidates == 2) 0 false candidates w
  unfolding resolve_file
  resolve_file_accepted content_root path w e = rw (e, resolve_file)

  pub resolve_file_refused :
      (content_root path : Bytes) (w : W) {e : ResolveError}
      → candidate_paths path ≡ err e
      → resolve_file content_root path w ≡ (err e, w)
  unfolding resolve_file
  resolve_file_refused content_root path w e = rw (e, resolve_file)

  pub lookup_failed :
      (content_root : Bytes) (is_first allow : Bool) (candidate : Bytes) (w w' : W) (e : IoError)
      → fs.canonicalize (join content_root candidate) w ≡ (err e, w')
      → is_not_found e ≡ false
      → lookup content_root is_first allow candidate w ≡ (done (err (io e)), w')
  unfolding lookup
  lookup_failed content_root is_first allow candidate w w' e failed kind = ground arith
