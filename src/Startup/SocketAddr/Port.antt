-- ===== src/Startup/SocketAddr/Port.antt =====
-- The port at the end of what `SocketAddr::from_str` reads.
use tiny_httpd.Base.{
  ◌*◌, ltb, if◌then◌else◌, if_keeps, begins_with, ℕ, ◌+◌, ◌-◌, ◌<◌, ◌≡◌, ◌≢◌, refl, Bool, true,
  Option, none, some, [], ◌∷◌, ◌++◌, ◌==◌, Bytes, length, arith, ap, sym, subst, All,
}
use tiny_httpd.Startup.SocketAddr.{
  to_digit, too_much, read_digits, check_number, read_number, read_given_char, read_port,
}
use tiny_httpd.Startup.Listen.Port.{decimal, IsDigit}

-- What the loop over the digits leaves, and what it has read.
abbrev DigitsOf : ℕ → ℕ → Bytes → Option ((ℕ × ℕ) × Bytes) → Type 0
DigitsOf value count s none = Unit
DigitsOf value count s (some ((v, n), rest)) =
    (digits : Bytes) × (s ≡ digits ++ rest)
    × All IsDigit digits
    × (decimal value digits ≡ v)
    × (n ≡ count + length digits)

DigitsOf-cons :
    (value count c digit : ℕ) (s : Bytes) (o : Option ((ℕ × ℕ) × Bytes))
    → IsDigit c
    → digit ≡ c - b'0'
    → DigitsOf (value * 10 + digit) (count + 1) s o
    → DigitsOf value count (c ∷ s) o
unfolding decimal
DigitsOf-cons value count c digit s none i e h = tt
DigitsOf-cons value count c digit s (some ((v, n), rest)) i e (digits, split, all, same, counted) =
    (c ∷ digits, ap (λ t. c ∷ t) split, (i, all), rw e at same, omega (arith, counted))

to_digit-decimal : (c digit : ℕ) → to_digit 10 c ≡ some digit → IsDigit c × (digit ≡ c - b'0')
unfolding to_digit
to_digit-decimal c digit h = ground arith

read_digits-DigitsOf :
    (bound count value : ℕ) (s : Bytes)
    → DigitsOf value count s (read_digits 10 none bound count value s)
unfolding read_digits decimal
read_digits-DigitsOf bound count value [] = ([], refl, tt, refl, omega arith)
read_digits-DigitsOf bound count value (c ∷ s) =
    elim (to_digit 10 c)
        as (λ o.
          to_digit 10 c ≡ o
          → DigitsOf value count (c ∷ s) (elim o as (λ x. Option ((ℕ × ℕ) × Bytes)) [
            | none ↦ some ((value, count), c ∷ s)
            | some digit ↦
                let next = value * 10 + digit in
                let rest = read_digits 10 none bound (count + 1) next s in
                if too_much none bound (count + 1) next then none else rest
          ])) [
            | none ↦ λ e. ([], refl, tt, refl, omega arith)
            | some digit ↦ λ e.
                let next = value * 10 + digit in
                let (is_digit, same) = to_digit-decimal c digit e in
                if_keeps (DigitsOf value count (c ∷ s)) (too_much none bound (count + 1) next)
                  (λ h. tt {0})
                  (λ h.
                    DigitsOf-cons value count c digit s
                      (read_digits 10 none bound (count + 1) next s) is_digit same
                      (read_digits-DigitsOf bound (count + 1) next s))
          ]
      refl

pub record IsDecimal (digits : Bytes) (n : ℕ) : Type 0 where
  pub some_there : digits ≢ []
  pub all_digits : All IsDigit digits
  pub same : decimal 0 digits ≡ n
  pub small : n < 65536

-- The digits of a number of 16 bits.
abbrev NumberOf : Bytes → Option (ℕ × Bytes) → Type 0
NumberOf s none = Unit
NumberOf s (some (n, rest)) = (digits : Bytes) × (s ≡ digits ++ rest) × IsDecimal digits n

check_number-NumberOf :
    (leading_zero : Bool) (s : Bytes) (v n : ℕ) (rest : Bytes)
    → DigitsOf 0 0 s (some ((v, n), rest))
    → NumberOf s (check_number 65536 true leading_zero (v, n) rest)
unfolding check_number
check_number-NumberOf leading_zero s v n rest (digits, split, all, same, counted) =
    if_keeps (NumberOf s) (n == 0) (λ h. tt {0})
      (λ counted_some.
        if_keeps (NumberOf s) (ltb v 65536)
          (λ h. (
            digits,
            split,
            record {
              some_there = λ none_there.
                  ground (arith, counted, counted_some, none_there, ap length none_there);
              all_digits = all;
              same = same;
              small = ground (arith, h);
            },
          ))
          (λ h. tt {0}))

read_number-NumberOf : (s : Bytes) → NumberOf s (read_number 10 none true 65536 s)
unfolding read_number
read_number-NumberOf s =
    elim (read_digits 10 none 65536 0 0 s)
        as (λ o.
          DigitsOf 0 0 s o
          → NumberOf s (elim o as (λ x. Option (ℕ × Bytes)) [
            | none ↦ none
            | some (r, rest) ↦ check_number 65536 true (begins_with b'0' s) r rest
          ])) [
            | none ↦ λ h. tt
            | some ((v, n), rest) ↦ λ h. check_number-NumberOf (begins_with b'0' s) s v n rest h
          ]
      (read_digits-DigitsOf 65536 0 0 s)

-- A colon and the digits of a port.
abbrev pub PortOf : Bytes → Option (ℕ × Bytes) → Type 0
PortOf s none = Unit
PortOf s (some (port, rest)) =
    (digits : Bytes) × (s ≡ b':' ∷ digits ++ rest) × IsDecimal digits port

PortOf-colon : (s : Bytes) (o : Option (ℕ × Bytes)) → NumberOf s o → PortOf (b':' ∷ s) o
PortOf-colon s none h = tt
PortOf-colon s (some (n, rest)) (digits, split, more) = (digits, ap (λ t. b':' ∷ t) split, more)

pub read_port-PortOf : (s : Bytes) → PortOf s (read_port s)
unfolding read_port read_given_char
read_port-PortOf [] = tt
read_port-PortOf (c ∷ s) =
    if_keeps
      (λ (o : Option (Unit {0} × Bytes)). PortOf (c ∷ s) (elim o as (λ x. Option (ℕ × Bytes)) [
        | none ↦ none
        | some (a, rest) ↦ read_number 10 none true 65536 rest
      ]))
      (c == b':')
      (λ colon.
        let same : c ≡ b':' = ground (arith, colon) in
        subst (λ x. PortOf (x ∷ s) (read_number 10 none true 65536 s)) (sym same)
          (PortOf-colon s (read_number 10 none true 65536 s) (read_number-NumberOf s)))
      (λ other. tt {0})
