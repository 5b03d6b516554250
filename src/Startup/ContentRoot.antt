-- ===== src/Startup/ContentRoot.antt =====
-- src/bin/tiny-httpd.rs, `StartupError` and `prepare_content_root`, and the minimum of a timeout in
-- `parse_duration`.
use tiny_httpd.Base.{
  ℕ, ◌≡◌, inl, inr, refl, true, false, not, Bool-cases, Option, none, some, if◌then◌else◌, ltb,
  Bytes, codes, Result, ok, err, fail_if, ◌>>=◌, ◌>>◌,
}
use tiny_httpd.Fs.Error.{IoError}
use tiny_httpd.Fs.System.{Metadata, FileSystem}

-- `humantime::parse_duration` is a parameter; a duration is its milliseconds.
unfoldable pub parse_duration : (Bytes → Result Bytes ℕ) → Bytes → Result Bytes ℕ
parse_duration humantime value = do
  duration ← humantime value
  fail_if (ltb duration 1000) (codes "duration must be at least 1s")
  ok duration

pub data StartupError : Type 0 where
  content_root_not_directory : Bytes → StartupError
  content_root_canonicalize : Bytes → IoError → StartupError
  bind_failed : Bytes → IoError → StartupError

-- `canonicalize`, with `map_err` and `?`.
unfoldable pub canonical_root : Bytes → Result IoError Bytes → Result StartupError (Option Bytes)
canonical_root content_root (ok canonical) = ok (some canonical)
canonical_root content_root (err source) = err (content_root_canonicalize content_root source)

module _ {W File : Type 0} (fs : FileSystem W File) where
  -- The `match`; its two branches for a failing `metadata` differ in what they log.
  unfoldable pub after_metadata :
      Bytes → Result IoError Metadata → W → Result StartupError (Option Bytes) × W
  unfolding canonical_root
  after_metadata content_root (err error) w = (ok none, w)
  after_metadata content_root (ok metadata) w =
      if not metadata.is_dir
      then (err (content_root_not_directory content_root), w)
      else let (canonical, w') = fs.canonicalize content_root w in
        (canonical_root content_root canonical, w')

  unfoldable pub prepare_content_root : Bytes → W → Result StartupError (Option Bytes) × W
  unfolding after_metadata
  prepare_content_root content_root w =
      let (found, w') = fs.metadata content_root w in after_metadata content_root found w'

  -- What each outcome says of the file system at the two moments of asking.
  abbrev pub Prepared : Bytes → W → Result StartupError (Option Bytes) → Type 0
  Prepared content_root w (ok none) = (e : IoError) × ((fs.metadata content_root w).0 ≡ err e)
  Prepared content_root w (ok (some canonical)) =
      (m : Metadata) × ((fs.metadata content_root w).0 ≡ ok m)
      × (m.is_dir ≡ true)
      × ((fs.canonicalize content_root (fs.metadata content_root w).1).0 ≡ ok canonical)
  Prepared content_root w (err (content_root_not_directory path)) =
      (path ≡ content_root)
      × ((m : Metadata) × ((fs.metadata content_root w).0 ≡ ok m) × (m.is_dir ≡ false))
  Prepared content_root w (err (content_root_canonicalize path e)) =
      (path ≡ content_root)
      × ((m : Metadata) × ((fs.metadata content_root w).0 ≡ ok m) × (m.is_dir ≡ true))
      × ((fs.canonicalize content_root (fs.metadata content_root w).1).0 ≡ err e)
  Prepared content_root w (err (bind_failed path e)) = ⊥

  canonical-Prepared :
      (content_root : Bytes) (w : W) (m : Metadata)
      → (fs.metadata content_root w).0 ≡ ok m
      → m.is_dir ≡ true
      → (r : Result IoError Bytes)
      → (fs.canonicalize content_root (fs.metadata content_root w).1).0 ≡ r
      → Prepared content_root w (canonical_root content_root r)
  unfolding canonical_root
  canonical-Prepared content_root w m found dir (ok canonical) h = (m, found, dir, h)
  canonical-Prepared content_root w m found dir (err e) h = (refl, (m, found, dir), h)

  metadata-Prepared :
      (content_root : Bytes) (w : W) (found : Result IoError Metadata)
      → (fs.metadata content_root w).0 ≡ found
      → Prepared content_root w (after_metadata content_root found (fs.metadata content_root w).1).0
  unfolding after_metadata
  metadata-Prepared content_root w (err e) h = (e, h)
  metadata-Prepared content_root w (ok m) h = elim (Bool-cases m.is_dir) [
    | inl dir ↦ rw dir (canonical-Prepared content_root w m h dir _ refl)
    | inr file ↦ rw file (refl, (m, h, file))
  ]

  -- The server gets a content root exactly when the configured path is a directory that can be
  -- canonicalized, and that is the canonical path. A path whose metadata cannot be read, for any
  -- reason, gives none; a path to something else, or a failing `canonicalize`, is the startup error
  -- that names the configured path.
  pub prepare_content_root-Prepared :
      (content_root : Bytes) (w : W)
      → Prepared content_root w (prepare_content_root content_root w).0
  unfolding prepare_content_root
  prepare_content_root-Prepared content_root w = metadata-Prepared content_root w _ refl
