-- ===== src/Fs/Resolve/Found.antt =====
-- Which file `resolve_file` of src/fs.rs finds in a content root that nobody writes to.
use tiny_httpd.Base.{
  ◌≡◌, ◌↔◌, refl, sym, ◌∙◌, Bool, true, false, List, [], ◌∷◌, ◌==◌, Bytes, Result, ok, err, length,
  arith, inl, inr, Result-cases, ◌⊎◌,
}
use tiny_httpd.Fs.Error.{ResolveError, not_found}
use tiny_httpd.Fs.FilePath.{join, starts_with}
use tiny_httpd.Fs.Candidates.{candidate_paths}
use tiny_httpd.Fs.Candidates.Safe.{IsOneOrTwo, candidate_paths-IsOneOrTwo}
use tiny_httpd.Fs.System.{Metadata, Snapshot, static}
use tiny_httpd.Fs.Resolve.{
  ResolvedFile, next, done, after_round-eq-ok, lookup, resolve_loop, resolve_file,
  resolve_file_accepted, resolve_file_refused,
}

module _ {File : Type 0} (disk : Snapshot File) (root : Bytes) where
  -- The candidate names a regular file below the root, which opens.
  pub record Serves (candidate : Bytes) (r : ResolvedFile File) : Type 0 where
    pub info : Metadata
    pub real : disk.canonical (join root candidate) ≡ ok r.canonical_path
    pub inside : starts_with r.canonical_path root ≡ true
    pub known : disk.info r.canonical_path ≡ ok info
    pub regular : info.is_file ≡ true
    pub sized : r.content_length ≡ info.len
    pub opens : disk.file r.canonical_path ≡ ok r.file

  -- The candidate names a directory below the root.
  pub record IsDirectory (candidate : Bytes) : Type 0 where
    pub path : Bytes
    pub info : Metadata
    pub real : disk.canonical (join root candidate) ≡ ok path
    pub inside : starts_with path root ≡ true
    pub known : disk.info path ≡ ok info
    pub directory : info.is_dir ≡ true
    pub irregular : info.is_file ≡ false

  -- The lookup order of the README: the path itself, then its index file if it is a directory.
  abbrev pub Finds : List Bytes → ResolvedFile File → Type 0
  Finds (a ∷ []) r = Serves a r
  Finds (a ∷ b ∷ []) r = Serves a r ⊎ (IsDirectory a × Serves b r)
  Finds _ r = ⊥

  lookup-Serves :
      (is_first allow : Bool) (a : Bytes) (r : ResolvedFile File)
      → lookup (static disk) root is_first allow a tt ≡ (done (ok r), tt)
      → Serves a r
  unfolding lookup static
  lookup-Serves is_first allow a r h = elim (Result-cases (disk.canonical (join root a))) [
    | inl (p, real) ↦ elim (Result-cases (disk.info p)) [
      | inl (m, known) ↦ record {
        info = m;
        real = ground (arith, real, known);
        inside = ground (arith, real, known);
        known = ground (arith, real, known);
        regular = ground (arith, real, known);
        sized = ground (arith, real, known);
        opens = ground (arith, real, known);
      }
      | inr (e, bad) ↦ absurd (ground (arith, real, bad))
    ]
    | inr (e, bad) ↦ absurd (ground (arith, bad))
  ]

  Serves-lookup :
      (is_first allow : Bool) (a : Bytes) (r : ResolvedFile File)
      → Serves a r
      → lookup (static disk) root is_first allow a tt ≡ (done (ok r), tt)
  unfolding lookup static
  Serves-lookup is_first allow a r s = ground arith

  lookup-next :
      (allow allow' : Bool) (a : Bytes)
      → lookup (static disk) root true allow a tt ≡ (next allow', tt)
      → (allow ≡ false)
      → allow' ≡ true
      → IsDirectory a
  unfolding lookup static
  lookup-next allow allow' a h f t = elim (Result-cases (disk.canonical (join root a))) [
    | inl (p, real) ↦ elim (Result-cases (disk.info p)) [
      | inl (m, known) ↦ record {
        path = p;
        info = m;
        real = real;
        inside = ground (arith, real, known);
        known = known;
        directory = ground (arith, real, known);
        irregular = ground (arith, real, known);
      }
      | inr (e, bad) ↦ absurd (ground (arith, real, bad))
    ]
    | inr (e, bad) ↦ absurd (ground (arith, bad))
  ]

  IsDirectory-lookup :
      (allow : Bool) (a : Bytes)
      → IsDirectory a
      → lookup (static disk) root true allow a tt ≡ (next true, tt)
  unfolding lookup static
  IsDirectory-lookup allow a d = ground arith

  abbrev Answer : Type 0
  Answer = Result ResolveError (ResolvedFile File) × Unit {0}

  not-ok :
      (fault : ResolveError) {r : ResolvedFile File}
      → ¬ (◌≡◌ {A = Answer} (err fault, tt) (ok r, tt))
  not-ok fault e = cc

  resolve_loop-one :
      (a : Bytes) (r : ResolvedFile File)
      → (resolve_loop (static disk) root false 0 false (a ∷ []) tt ≡ (ok r, tt)) ↔ Serves a r
  unfolding resolve_loop
  resolve_loop-one a r = (
    (λ e.
        elim (after_round-eq-ok (lookup (static disk) root false false a tt)
          (λ _ w. (err not_found, w)) e) [
            | inl found ↦ lookup-Serves false false a r found
            | inr (_, _, _, missing) ↦ absurd (not-ok not_found missing)
          ]),
    (λ s. rw (Serves-lookup false false a r s)),
  )

  abbrev second : Bool → Bytes → Answer
  second allow b = resolve_loop (static disk) root true 1 allow (b ∷ []) tt

  second-Serves :
      (allow : Bool) (b : Bytes) (r : ResolvedFile File)
      → (second allow b ≡ (ok r, tt)) ↔ ((allow ≡ true) × Serves b r)
  unfolding resolve_loop
  second-Serves false b r = ((λ e. absurd (not-ok not_found e)), (λ s. cc))
  second-Serves true b r = (
    (λ e.
        elim (after_round-eq-ok (lookup (static disk) root false true b tt)
          (λ _ w. (err not_found, w)) e) [
            | inl found ↦ (refl, lookup-Serves false true b r found)
            | inr (_, _, _, missing) ↦ absurd (not-ok not_found missing)
          ]),
    (λ s. rw (Serves-lookup false true b r s.1)),
  )

  resolve_loop-two :
      (a b : Bytes) (r : ResolvedFile File)
      → (resolve_loop (static disk) root true 0 false (a ∷ b ∷ []) tt ≡ (ok r, tt))
        ↔ Finds (a ∷ b ∷ []) r
  unfolding resolve_loop
  resolve_loop-two a b r = (to, from)
    where
      to :
          resolve_loop (static disk) root true 0 false (a ∷ b ∷ []) tt ≡ (ok r, tt)
          → Finds (a ∷ b ∷ []) r
      to e =
          elim (after_round-eq-ok (lookup (static disk) root true false a tt)
            (λ allow _. second allow b) e) [
              | inl found ↦ inl (lookup-Serves true false a r found)
              | inr (allow, _, passed, later) ↦ inr (
                lookup-next false allow a passed refl ((second-Serves allow b r).0 later).0,
                ((second-Serves allow b r).0 later).1,
              )
            ]

      from :
          Finds (a ∷ b ∷ []) r
          → resolve_loop (static disk) root true 0 false (a ∷ b ∷ []) tt ≡ (ok r, tt)
      from (inl s) = rw (Serves-lookup true false a r s)
      from (inr (d, s)) = rw (IsDirectory-lookup false a d) ((second-Serves true b r).1 (refl, s))

  resolve_loop_iff :
      (candidates : List Bytes) (r : ResolvedFile File)
      → IsOneOrTwo candidates
      → (resolve_loop (static disk) root (length candidates == 2) 0 false candidates tt
          ≡ (ok r, tt))
        ↔ Finds candidates r
  resolve_loop_iff [] r h = absurd h
  resolve_loop_iff (a ∷ []) r h = resolve_loop-one a r
  resolve_loop_iff (a ∷ b ∷ []) r h = resolve_loop-two a b r
  resolve_loop_iff (a ∷ b ∷ c ∷ cs) r h = absurd h

  -- In a content root that nobody writes to, a request path is answered with a file exactly when
  -- it is well formed and its candidates, in the documented order, lead to that file: canonical
  -- path, length and open file are those of a regular file inside the root.
  pub resolve_file_iff :
      (path : Bytes) (r : ResolvedFile File)
      → (resolve_file (static disk) root path tt ≡ (ok r, tt))
        ↔ ((candidates : List Bytes) × (candidate_paths path ≡ ok candidates) × Finds candidates r)
  resolve_file_iff path r = (to, from)
    where
      to :
          resolve_file (static disk) root path tt ≡ (ok r, tt)
          → (candidates : List Bytes) × (candidate_paths path ≡ ok candidates) × Finds candidates r
      to e = elim (Result-cases (candidate_paths path)) [
        | inl (cs, accepted) ↦ (
          cs,
          accepted,
          (resolve_loop_iff cs r (candidate_paths-IsOneOrTwo path accepted)).0
              (sym (resolve_file_accepted (static disk) root path tt accepted) ∙ e),
        )
        | inr (fault, refused) ↦
            absurd
              (not-ok fault (sym (resolve_file_refused (static disk) root path tt refused) ∙ e))
      ]

      from :
          ((candidates : List Bytes) × (candidate_paths path ≡ ok candidates) × Finds candidates r)
          → resolve_file (static disk) root path tt ≡ (ok r, tt)
      from (cs, accepted, found) =
          resolve_file_accepted (static disk) root path tt accepted
          ∙ (resolve_loop_iff cs r (candidate_paths-IsOneOrTwo path accepted)).1 found
