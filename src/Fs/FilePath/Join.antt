-- ===== src/Fs/FilePath/Join.antt =====
-- The components of a joined path, for `std::path` as src/fs.rs uses it.
use tiny_httpd.Base.{
  ℕ, ◌≡◌, ◌≢◌, refl, ap, true, false, List, [], ◌∷◌, ◌++◌, append_assoc, list_laws, append-nil,
  ◌==◌, Bytes, codes, bytes_eq, bytes_eq_refl, bytes_eq→eq, begins_with, ends_with, ◌⊎◌, subst,
  arith, Bool-cases, inl, inr,
}
use tiny_httpd.Fs.FilePath.{
  Component, root_dir, cur_dir, parent_dir, normal, push_front, pieces, component, body, leading,
  components, join, component_eq, is_prefix, starts_with,
}

push_front-ne-nil : (c : ℕ) (ps : List Bytes) → push_front c ps ≢ []
unfolding push_front
push_front-ne-nil c [] = cc
push_front-ne-nil c (p ∷ ps) = cc

pieces-ne-nil : (s : Bytes) → pieces s ≢ []
unfolding pieces
pieces-ne-nil [] = cc
pieces-ne-nil (c ∷ s) = ground (arith, push_front-ne-nil c (pieces s))

push_front-append :
    (c : ℕ) (ps qs : List Bytes) → ps ≢ [] → push_front c (ps ++ qs) ≡ push_front c ps ++ qs
unfolding push_front
push_front-append c [] qs h = absurd (h refl)
push_front-append c (p ∷ ps) qs h = refl

-- A slash cuts the pieces of the two sides apart.
pieces-append_slash : (s t : Bytes) → pieces (s ++ b'/' ∷ t) ≡ pieces s ++ pieces t
unfolding pieces
pieces-append_slash [] t = refl
pieces-append_slash (c ∷ s) t = elim (Bool-cases (c == b'/')) [
  | inl slash ↦ rw (slash, pieces-append_slash s t)
  | inr other ↦
      rw (other, pieces-append_slash s t)
        (push_front-append c (pieces s) (pieces t) (pieces-ne-nil s))
]

body-append : (ps qs : List Bytes) → body (ps ++ qs) ≡ body ps ++ body qs
unfolding body
body-append [] qs = refl
body-append (p ∷ ps) qs = simp (body-append ps qs, list_laws)

leading-append : (ps qs : List Bytes) → ps ≢ [] → leading (ps ++ qs) ≡ leading ps ++ body qs
unfolding leading
leading-append [] qs h = absurd (h refl)
leading-append (p ∷ ps) qs h = elim (Bool-cases (bytes_eq p (codes "."))) [
  | inl dot ↦ rw (dot, body-append ps qs)
  | inr other ↦ rw other (simp (body-append ps qs, list_laws))
]

components-append_slash :
    (s t : Bytes) → s ≢ [] → components (s ++ b'/' ∷ t) ≡ components s ++ body (pieces t)
unfolding components
components-append_slash [] t h = absurd (h refl)
components-append_slash (c ∷ s) t h = elim (Bool-cases (c == b'/')) [
  | inl slash ↦ rw (slash, pieces-append_slash s t, body-append (pieces s) (pieces t))
  | inr other ↦
      rw
        (
          other,
          pieces-append_slash s t,
          push_front-append c (pieces s) (pieces t) (pieces-ne-nil s),
        )
        (leading-append (push_front c (pieces s)) (pieces t) (push_front-ne-nil c (pieces s)))
]

ends_with_slash : (s : Bytes) → ends_with b'/' s ≡ true → (r : Bytes) × (s ≡ r ++ b'/' ∷ [])
unfolding ends_with
ends_with_slash [] h = cc
ends_with_slash (c ∷ []) h = ([], ground arith)
ends_with_slash (c ∷ d ∷ s) h = let (r, e) = ends_with_slash (d ∷ s) h in (c ∷ r, ap (λ t. c ∷ t) e)

components-trailing_slash :
    (r t : Bytes) → components (r ++ b'/' ∷ t) ≡ components (r ++ b'/' ∷ []) ++ body (pieces t)
unfolding components
components-trailing_slash [] t = refl
components-trailing_slash (c ∷ r) t = rw (
  components-append_slash (c ∷ r) t (cc),
  components-append_slash (c ∷ r) [] (cc),
  append-nil (components (c ∷ r)),
)

components-closed :
    (s t : Bytes) → ends_with b'/' s ≡ true → components (s ++ t) ≡ components s ++ body (pieces t)
components-closed s t h =
    let (r, e) = ends_with_slash s h in
    rw (e, append_assoc r (b'/' ∷ []) t) (components-trailing_slash r t)

-- Joining a relative path appends its components, whether or not the base ends in a slash. A
-- leading dot of the joined path is lost on the way, as `body` has it.
pub components-join :
    (base path : Bytes)
    → base ≢ []
    → begins_with b'/' path ≡ false
    → components (join base path) ≡ components base ++ body (pieces path)
unfolding join bytes_eq
components-join [] path h k = absurd (h refl)
components-join (c ∷ s) path h k = elim (Bool-cases (ends_with b'/' (c ∷ s))) [
  | inl closed ↦ rw (k, closed) (components-closed (c ∷ s) path closed)
  | inr open_end ↦ rw (k, open_end) (components-append_slash (c ∷ s) path h)
]

component_eq_refl : (c : Component) → component_eq c c ≡ true
unfolding component_eq
component_eq_refl root_dir = refl
component_eq_refl cur_dir = refl
component_eq_refl parent_dir = refl
component_eq_refl (normal p) = bytes_eq_refl p

is_prefix-append : (cs ds : List Component) → is_prefix cs (cs ++ ds) ≡ true
unfolding is_prefix
is_prefix-append [] ds = refl
is_prefix-append (c ∷ cs) ds = rw (component_eq_refl c) (is_prefix-append cs ds)

-- A path joined to a base starts with the base, as long as it is not absolute.
pub starts_with-join :
    (base path : Bytes)
    → base ≢ []
    → begins_with b'/' path ≡ false
    → starts_with (join base path) base ≡ true
unfolding starts_with
starts_with-join base path h k =
    rw (components-join base path h k) (is_prefix-append (components base) (body (pieces path)))

leading-body : (ps : List Bytes) → (leading ps ≡ body ps) ⊎ (leading ps ≡ cur_dir ∷ body ps)
unfolding leading component
leading-body [] = inl refl
leading-body (p ∷ ps) = elim (Bool-cases (bytes_eq p (codes "."))) [
  | inl dot ↦ inr (rw (dot, bytes_eq→eq p (codes ".") dot))
  | inr other ↦ inl (rw other)
]

-- The components of a relative path are those of its pieces, but for a dot in front.
pub components-relative :
    (path : Bytes)
    → begins_with b'/' path ≡ false
    → (components path ≡ body (pieces path)) ⊎ (components path ≡ cur_dir ∷ body (pieces path))
unfolding components begins_with
components-relative [] h = inl refl
components-relative (c ∷ s) h = rw h (leading-body (push_front c (pieces s)))

pub starts_with_refl : (path : Bytes) → starts_with path path ≡ true
unfolding starts_with
starts_with_refl path =
    subst (λ cs. is_prefix (components path) cs ≡ true) (append-nil (components path))
      (is_prefix-append (components path) [])
