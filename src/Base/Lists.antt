-- ===== src/Base/Lists.antt =====
-- Lists measured and indexed by native numbers, under the library's names, and a predicate that
-- holds of every element.
use Prim.Native.Nat.{ℕ, zero, suc, ◌+◌, ◌-◌}
use mathlib.Core.Path.{◌≡◌, refl}
use mathlib.Core.List.{List, [], ◌∷◌, ◌++◌, append-nil, append_assoc}
use mathlib.Core.Option.{Option, none, some}
use native.Mathlib.Omega.{arith}
use tiny_httpd.Base.Tests.{◌==◌, if◌then◌else◌}
use native.Mathlib.Nat.{zero-add, suc-add, add-zero}

module _ {ℓ} {A : Type ℓ} where
  abbrev pub length : List A → ℕ
  length [] = 0
  length (x ∷ xs) = suc (length xs)

  abbrev pub get_elem? : List A → ℕ → Option A
  get_elem? [] i = none
  get_elem? (x ∷ xs) zero = some x
  get_elem? (x ∷ xs) (suc i) = get_elem? xs i

  abbrev pub drop : ℕ → List A → List A
  drop zero xs = xs
  drop (suc n) [] = []
  drop (suc n) (x ∷ xs) = drop n xs

  pub length-append : (xs ys : List A) → length (xs ++ ys) ≡ length xs + length ys
  length-append [] ys = omega arith
  length-append (x ∷ xs) ys = omega (arith, length-append xs ys)

module _ {ℓ κ} {A : Type ℓ} (P : A → Type κ) where
  abbrev pub All : List A → Type κ
  All [] = Unit
  All (x ∷ xs) = P x × All xs

  pub All-append : (xs ys : List A) → All xs → All ys → All (xs ++ ys)
  All-append [] ys _ hy = hy
  All-append (x ∷ xs) ys (px, hx) hy = (px, All-append xs ys hx hy)

pub All-imp {ℓ κ μ} :
    {A : Type ℓ} (P : A → Type κ) (Q : A → Type μ) (xs : List A)
    → ((x : A) → P x → Q x)
    → All P xs
    → All Q xs
All-imp P Q [] f h = tt
All-imp P Q (x ∷ xs) f (p, h) = (f x p, All-imp P Q xs f h)

module _ {ℓ} {A : Type ℓ} where
  pub get_elem?-drop : (xs : List A) (i k : ℕ) → get_elem? xs (i + k) ≡ get_elem? (drop i xs) k
  get_elem?-drop xs zero k = rw zero-add
  get_elem?-drop [] (suc i) k = refl
  get_elem?-drop (x ∷ xs) (suc i) k = rw suc-add (get_elem?-drop xs i k)

  pub drop-drop : (xs : List A) (i k : ℕ) → drop (i + k) xs ≡ drop k (drop i xs)
  drop-drop xs zero k = rw zero-add
  drop-drop [] (suc i) zero = rw add-zero
  drop-drop [] (suc i) (suc k) = rw suc-add
  drop-drop (x ∷ xs) (suc i) k = rw suc-add (drop-drop xs i k)

  pub length-drop : (n : ℕ) (xs : List A) → length (drop n xs) ≡ length xs - n
  length-drop zero xs = omega arith
  length-drop (suc n) [] = omega arith
  length-drop (suc n) (x ∷ xs) = omega (arith, length-drop n xs)

-- An element in the middle, taken out.
pub All-middle {ℓ κ} :
    {A : Type ℓ} (P : A → Type κ) (xs : List A) (x : A) (ys : List A)
    → All P (xs ++ x ∷ ys)
    → P x × All P (xs ++ ys)
All-middle P [] x ys h = h
All-middle P (y ∷ xs) x ys (p, h) = let (q, r) = All-middle P xs x ys h in (q, (p, r))

pub length-middle {ℓ} :
    {A : Type ℓ} (xs : List A) (x : A) (ys : List A) → length (xs ++ x ∷ ys) ≡ length (xs ++ ys) + 1
length-middle [] x ys = omega arith
length-middle (y ∷ xs) x ys = omega (arith, length-middle xs x ys)

pub All-insert {ℓ κ} :
    {A : Type ℓ} (P : A → Type κ) (xs : List A) (x : A) (ys : List A)
    → P x
    → All P (xs ++ ys)
    → All P (xs ++ x ∷ ys)
All-insert P [] x ys p h = (p, h)
All-insert P (y ∷ xs) x ys p (q, h) = (q, All-insert P xs x ys p h)

pub All-zip {ℓ κ μ} :
    {A : Type ℓ} (P : A → Type κ) (Q : A → Type μ) (xs : List A)
    → All P xs
    → All Q xs
    → All (λ x. P x × Q x) xs
All-zip P Q [] h k = tt
All-zip P Q (x ∷ xs) (p, h) (q, k) = ((p, q), All-zip P Q xs h k)

-- How often a number occurs.
abbrev pub count : ℕ → List ℕ → ℕ
count a [] = 0
count a (x ∷ xs) = (if x == a then 1 else 0) + count a xs

pub count-append :
    (n : ℕ) (front back : List ℕ) → count n (front ++ back) ≡ count n front + count n back
count-append n [] back = omega arith
count-append n (m ∷ front) back = omega (arith, count-append n front back)

pub count-middle :
    (a : ℕ) (xs : List ℕ) (x : ℕ) (ys : List ℕ)
    → count a (xs ++ x ∷ ys) ≡ (if x == a then 1 else 0) + count a (xs ++ ys)
count-middle a [] x ys = refl
count-middle a (y ∷ xs) x ys = omega (arith, count-middle a xs x ys)

pub middle-ne-nil {ℓ} : {A : Type ℓ} (xs : List A) (x : A) (ys : List A) → ¬ (xs ++ x ∷ ys ≡ [])
middle-ne-nil [] x ys h = cc
middle-ne-nil (y ∷ xs) x ys h = cc

pub ruleset list_laws = (append-nil, append_assoc)

-- What `grind` takes of the occurrences in lists.
pub ruleset counts = (arith, count-append, count-middle)
