-- ===== src/Startup/SocketAddr/Eats.antt =====
-- What the parsers of `SocketAddr::from_str` take off the front of a text.
use tiny_httpd.Base.{
  ◌*◌, not, ◌&&◌, ltb, if◌then◌else◌, if_keeps, begins_with, ℕ, ◌+◌, ◌≤◌, ◌≡◌, refl, Bool, true,
  false, Option, none, some, [], ◌∷◌, ◌++◌, list_laws, ◌==◌, Bytes, length, length-append, arith,
  ap,
}
use tiny_httpd.Startup.SocketAddr.{
  Parser, ◌>>=◌, pure, or_else, to_digit, too_much, read_digits, check_number, read_number,
  read_given_char, read_separator, read_octet, read_ipv4_addr,
}

-- `rest` is what is left of `s` behind at least `k` bytes.
abbrev pub Left : ℕ → Bytes → Bytes → Type 0
Left k s rest = (front : Bytes) × (s ≡ front ++ rest) × (k ≤ length front)

pub Left-refl : (s : Bytes) → Left 0 s s
Left-refl s = ([], refl, omega arith)

pub Left-trans : (j k : ℕ) (s t u : Bytes) → Left j s t → Left k t u → Left (j + k) s u
Left-trans j k s t u (f, e, n) (g, e', m) =
    (f ++ g, simp (e, e', list_laws), omega (arith, n, m, length-append f g))

abbrev pub LeftOf : {A : Type 0} → ℕ → Bytes → Option (A × Bytes) → Type 0
LeftOf k s none = Unit
LeftOf k s (some (a, rest)) = Left k s rest

pub LeftOf-trans :
    {A : Type 0} (j k : ℕ) (s t : Bytes) (o : Option (A × Bytes))
    → Left j s t
    → LeftOf k t o
    → LeftOf (j + k) s o
LeftOf-trans j k s t none h i = tt
LeftOf-trans j k s t (some (a, rest)) h i = Left-trans j k s t rest h i

-- At least `j + k` is at least `k`.
pub LeftOf-weaken :
    {A : Type 0} (j k : ℕ) (s : Bytes) (o : Option (A × Bytes)) → LeftOf (j + k) s o → LeftOf k s o
LeftOf-weaken j k s none h = tt
LeftOf-weaken j k s (some (a, rest)) (f, e, n) = (f, e, omega arith)

-- A parser that succeeds takes at least `k` bytes.
abbrev pub Eats : ℕ → {A : Type 0} → Parser A → Type 0
Eats k p = (s : Bytes) → LeftOf k s (p s)

pub Eats-pure : {A : Type 0} (a : A) → Eats 0 (pure a)
Eats-pure a s = Left-refl s

pub Eats-bind :
    {A B : Type 0} (j k : ℕ) (p : Parser A) (f : A → Parser B)
    → Eats j p
    → ((a : A) → Eats k (f a))
    → Eats (j + k) (p >>= f)
Eats-bind j k p f eats then_eats s =
    elim (p s)
        as (λ o.
          LeftOf j s o → LeftOf (j + k) s (elim o [ none ↦ none | some (a, rest) ↦ f a rest ])) [
            | none ↦ λ h. tt
            | some (a, t) ↦ λ h. LeftOf-trans j k s t (f a t) h (then_eats a t)
          ]
      (eats s)

pub Eats-or_else :
    {A : Type 0} (k : ℕ) (p q : Parser A) → Eats k p → Eats k q → Eats k (or_else p q)
Eats-or_else k p q eats eats' s =
    elim (p s) as (λ o. LeftOf k s o → LeftOf k s (elim o [ some r ↦ some r | none ↦ q s ])) [
      | none ↦ λ h. eats' s
      | some r ↦ λ h. h
    ]
      (eats s)

pub Eats-given : (c : ℕ) → Eats 1 (read_given_char c)
unfolding read_given_char
Eats-given c [] = tt
Eats-given c (d ∷ s) = elim (d == c) as (λ b. LeftOf 1 (d ∷ s) (if b then some (tt, s) else none)) [
  | true ↦ (d ∷ [], refl, omega arith)
  | false ↦ tt
]

LeftOf-cons :
    {A : Type 0} (c : ℕ) (s : Bytes) (o : Option (A × Bytes)) → LeftOf 0 s o → LeftOf 0 (c ∷ s) o
LeftOf-cons c s none h = tt
LeftOf-cons c s (some (a, rest)) (f, e, n) = (c ∷ f, ap (λ r. c ∷ r) e, omega arith)

Eats-digits :
    (radix : ℕ) (max_digits : Option ℕ) (bound count value : ℕ)
    → Eats 0 (read_digits radix max_digits bound count value)
unfolding read_digits
Eats-digits radix max_digits bound count value [] = Left-refl []
Eats-digits radix max_digits bound count value (c ∷ s) =
    elim (to_digit radix c)
      as (λ o. LeftOf {A = ℕ × ℕ} 0 (c ∷ s) (elim o as (λ x. Option ((ℕ × ℕ) × Bytes)) [
        | none ↦ some ((value, count), c ∷ s)
        | some digit ↦
            let next = value * radix + digit in
            let rest = read_digits radix max_digits bound (count + 1) next s in
            if too_much max_digits bound (count + 1) next then none else rest
      ])) [
        | none ↦ Left-refl (c ∷ s)
        | some digit ↦
            let next = value * radix + digit in
            if_keeps (λ (o : Option ((ℕ × ℕ) × Bytes)). LeftOf {A = ℕ × ℕ} 0 (c ∷ s) o)
              (too_much max_digits bound (count + 1) next) (λ h. (tt {0}))
              (λ h.
                LeftOf-cons {A = ℕ × ℕ} c s (read_digits radix max_digits bound (count + 1) next s)
                  (Eats-digits radix max_digits bound (count + 1) next s))
      ]

Eats-check :
    (bound : ℕ) (allow_zero_prefix leading_zero : Bool) (r : ℕ × ℕ)
    → Eats 0 (check_number bound allow_zero_prefix leading_zero r)
unfolding check_number
Eats-check bound allow_zero_prefix leading_zero (value, count) s =
    if_keeps (λ (o : Option (ℕ × Bytes)). LeftOf {A = ℕ} 0 s o) (count == 0) (λ h. (tt {0}))
      (λ h.
        if_keeps (λ (o : Option (ℕ × Bytes)). LeftOf {A = ℕ} 0 s o)
          (not allow_zero_prefix && leading_zero && ltb 1 count) (λ h. (tt {0}))
          (λ h.
            if_keeps (λ (o : Option (ℕ × Bytes)). LeftOf {A = ℕ} 0 s o) (ltb value bound)
              (λ h. Left-refl s) (λ h. (tt {0}))))

pub Eats-number :
    (radix : ℕ) (max_digits : Option ℕ) (allow_zero_prefix : Bool) (bound : ℕ)
    → Eats 0 (read_number radix max_digits allow_zero_prefix bound)
unfolding read_number
Eats-number radix max_digits allow_zero_prefix bound s =
    Eats-bind 0 0 _ _ (Eats-digits radix max_digits bound 0 0)
      (Eats-check bound allow_zero_prefix (begins_with b'0' s)) s

pub Eats-separator :
    {A : Type 0} (c : ℕ) (is_first : Bool) (p : Parser A)
    → Eats 0 p
    → Eats 0 (read_separator c is_first p)
unfolding read_separator
Eats-separator c true p eats s = eats s
Eats-separator c false p eats s =
    LeftOf-weaken 1 0 s _
      (Eats-bind 1 0 (read_given_char c) (λ taken. p) (Eats-given c) (λ t. eats) s)

-- An IPv4 address has three dots.
pub Eats-ipv4 : Eats 3 read_ipv4_addr
unfolding read_ipv4_addr read_octet
Eats-ipv4 = Eats-bind 0 3 _ _ octet λ a. Eats-bind 1 2 _ _ (Eats-given b'.') λ t.
    Eats-bind 0 2 _ _ octet λ b. Eats-bind 1 1 _ _ (Eats-given b'.') λ t.
      Eats-bind 0 1 _ _ octet λ c.
        Eats-bind 1 0 _ _ (Eats-given b'.')
          λ t. Eats-bind 0 0 _ _ octet λ d. Eats-pure (a ∷ b ∷ c ∷ d ∷ [])
  where
    octet : Eats 0 read_octet
    octet = Eats-number 10 (some 3) false 256
