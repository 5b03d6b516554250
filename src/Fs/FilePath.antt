-- ===== src/Fs/FilePath.antt =====
-- `std::path::Path` on Unix, as far as src/fs.rs uses it: `components`, `join`, `starts_with`.
-- A path is its bytes. `Component::Prefix` is made on Windows only, and left out.
pub mod Join
use tiny_httpd.Base.{
  ℕ, zero, suc, ◌≡◌, refl, Bool, true, false, ◌&&◌, ◌||◌, List, [], ◌∷◌, ◌++◌, ◌==◌, if◌then◌else◌,
  Bytes, codes, bytes_eq, begins_with, ends_with,
}

pub data Component : Type 0 where
  root_dir cur_dir parent_dir : Component
  normal : Bytes → Component

push_front : ℕ → List Bytes → List Bytes
push_front c [] = (c ∷ []) ∷ []
push_front c (p ∷ ps) = (c ∷ p) ∷ ps

-- The pieces between the slashes; one more than there are slashes.
unfoldable pub pieces : Bytes → List Bytes
unfolding push_front
pieces [] = [] ∷ []
pieces (c ∷ s) = let rest = pieces s in if c == b'/' then [] ∷ rest else push_front c rest

-- The component that a piece gives behind another: an empty one and a dot give none.
unfoldable pub component : Bytes → List Component
unfolding bytes_eq
component p =
    if bytes_eq p [] || bytes_eq p (codes ".")
    then []
    else if bytes_eq p (codes "..")
    then parent_dir ∷ []
    else normal p ∷ []

unfoldable pub body : List Bytes → List Component
body [] = []
body (p ∷ ps) = component p ++ body ps

-- A dot that stands first in a relative path is kept.
unfoldable pub leading : List Bytes → List Component
unfolding bytes_eq body
leading [] = []
leading (p ∷ ps) = if bytes_eq p (codes ".") then cur_dir ∷ body ps else component p ++ body ps

unfoldable pub components : Bytes → List Component
unfolding leading body pieces component
components [] = []
components (c ∷ s) = if c == b'/' then root_dir ∷ body (pieces s) else leading (pieces (c ∷ s))

-- `PathBuf::push` on a copy: an absolute path replaces the base.
unfoldable pub join : Bytes → Bytes → Bytes
unfolding begins_with ends_with
join base path =
    if begins_with b'/' path
    then path
    else if bytes_eq base [] || ends_with b'/' base
    then base ++ path
    else base ++ b'/' ∷ path

component_eq : Component → Component → Bool
unfolding bytes_eq
component_eq root_dir root_dir = true
component_eq cur_dir cur_dir = true
component_eq parent_dir parent_dir = true
component_eq (normal p) (normal q) = bytes_eq p q
component_eq _ _ = false

unfoldable pub is_prefix : List Component → List Component → Bool
unfolding component_eq
is_prefix [] ds = true
is_prefix (c ∷ cs) [] = false
is_prefix (c ∷ cs) (d ∷ ds) = component_eq c d && is_prefix cs ds

-- By whole components, as in the standard library.
unfoldable pub starts_with : Bytes → Bytes → Bool
unfolding is_prefix components
starts_with path base = is_prefix (components base) (components path)
