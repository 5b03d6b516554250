-- ===== src/Startup/Listen/Port.antt =====
-- Which texts `u16::from_str` reads, as src/bin/tiny-httpd.rs calls it on a port.
use tiny_httpd.Base.{
  ℕ, ◌+◌, ◌-◌, ◌*◌, ◌≤◌, ◌<◌, ◌≡◌, ◌≢◌, ◌⊎◌, inl, inr, refl, Bool-cases, some, [], ◌∷◌, ◌==◌, Bytes,
  All, arith,
}
use tiny_httpd.Startup.Listen.{parse_digits, parse_u16}

-- The number that a row of digits writes, behind what was read already.
unfoldable pub decimal : ℕ → Bytes → ℕ
decimal value [] = value
decimal value (c ∷ s) = decimal (value * 10 + (c - b'0')) s

decimal-ge : (value : ℕ) (s : Bytes) → value ≤ decimal value s
unfolding decimal
decimal-ge value [] = omega arith
decimal-ge value (c ∷ s) = omega (arith, decimal-ge (value * 10 + (c - b'0')) s)

abbrev pub IsDigit : ℕ → Type 0
IsDigit c = (b'0' ≤ c) × (c ≤ b'9')

parse_digits_sound :
    (value n : ℕ) (s : Bytes)
    → value < 65536
    → parse_digits value s ≡ some n
    → All IsDigit s × (decimal value s ≡ n) × (n < 65536)
unfolding parse_digits decimal
parse_digits_sound value n [] b h = ground arith
parse_digits_sound value n (c ∷ s) b h =
    ground (arith, parse_digits_sound (value * 10 + (c - b'0')) n s)

parse_digits_complete :
    (value : ℕ) (s : Bytes)
    → All IsDigit s
    → decimal value s < 65536
    → parse_digits value s ≡ some (decimal value s)
unfolding parse_digits decimal
parse_digits_complete value [] digits b = refl
parse_digits_complete value (c ∷ s) digits b = ground (
  arith,
  decimal-ge (value * 10 + (c - b'0')) s,
  parse_digits_complete (value * 10 + (c - b'0')) s,
)

-- A number in decimal, of at least one digit and with leading zeros if any, or a plus sign and such a
-- number.
abbrev pub IsPort : Bytes → ℕ → Type 0
IsPort port n =
    (digits : Bytes) × ((port ≡ digits) ⊎ (port ≡ b'+' ∷ digits))
    × (digits ≢ [])
    × All IsDigit digits
    × (decimal 0 digits ≡ n)
    × (n < 65536)

pub parse_u16_sound : (port : Bytes) (n : ℕ) → parse_u16 port ≡ some n → IsPort port n
unfolding parse_u16
parse_u16_sound [] n h = cc
parse_u16_sound (c ∷ []) n h =
    let parsed = parse_digits_sound 0 n (c ∷ []) (omega arith) h in
    (c ∷ [], inl refl, (λ e. cc), parsed.0, parsed.1, parsed.2)
parse_u16_sound (c ∷ d ∷ s) n h = elim (Bool-cases (c == b'+')) [
  | inl plus ↦
      let read : parse_digits 0 (d ∷ s) ≡ some n = rw plus at h in
      let parsed = parse_digits_sound 0 n (d ∷ s) (omega arith) read in
      (d ∷ s, inr (ground arith), (λ e. cc), parsed.0, parsed.1, parsed.2)
  | inr digit ↦
      let read : parse_digits 0 (c ∷ d ∷ s) ≡ some n = rw digit at h in
      let parsed = parse_digits_sound 0 n (c ∷ d ∷ s) (omega arith) read in
      (c ∷ d ∷ s, inl refl, (λ e. cc), parsed.0, parsed.1, parsed.2)
]

parse_u16-digits :
    (digits : Bytes) → digits ≢ [] → All IsDigit digits → parse_u16 digits ≡ parse_digits 0 digits
unfolding parse_u16
parse_u16-digits [] nonempty all = absurd (nonempty refl)
parse_u16-digits (c ∷ []) nonempty all = refl
parse_u16-digits (c ∷ d ∷ s) nonempty all = ground arith

parse_u16-plus : (digits : Bytes) → digits ≢ [] → parse_u16 (b'+' ∷ digits) ≡ parse_digits 0 digits
unfolding parse_u16
parse_u16-plus [] nonempty = absurd (nonempty refl)
parse_u16-plus (d ∷ s) nonempty = refl

pub parse_u16_complete : (port : Bytes) (n : ℕ) → IsPort port n → parse_u16 port ≡ some n
parse_u16_complete port n (digits, written, nonempty, all, is_n, bound) =
    let read = parse_digits_complete 0 digits all (omega (arith, is_n, bound)) in
    elim written [
      | inl same ↦ rw (same, parse_u16-digits digits nonempty all, read, is_n) refl
      | inr signed ↦ rw (signed, parse_u16-plus digits nonempty, read, is_n) refl
    ]
