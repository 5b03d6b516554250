-- ===== src/Fs/Decode/Output.antt =====
-- What the output of `decode_percent_path` in src/fs.rs is made of.
use tiny_httpd.Base.{
  ℕ, ◌+◌, ◌*◌, length, length-append, ◌≡◌, ◌≢◌, true, [], ◌∷◌, ◌++◌, ◌==◌, if◌then◌else◌, Bytes, ok,
  >>=-eq-ok, All, All-append, arith, Result-cases, inl, inr,
}
use tiny_httpd.Fs.Utf8.{is_utf8, from_utf8}
use tiny_httpd.Fs.Decode.{decode_escape, decode_from, decode_percent_path}

-- How many slashes a text has.
unfoldable pub slashes : Bytes → ℕ
slashes [] = 0
slashes (b ∷ bs) = (if b == b'/' then 1 else 0) + slashes bs

abbrev pub NoNul : Bytes → Type 0
NoNul = All (λ b. b ≢ 0)

slashes-append : (s t : Bytes) → slashes (s ++ t) ≡ slashes s + slashes t
unfolding slashes
slashes-append [] t = omega arith
slashes-append (b ∷ s) t = omega (arith, slashes-append s t)

-- No digit is a slash, and neither is the byte that an accepted escape stands for; nor is it NUL.
decode_escape-plain :
    (c d : ℕ) {b : ℕ} → decode_escape c d ≡ ok b → (c ≢ b'/') × (d ≢ b'/') × (b ≢ b'/') × (b ≢ 0)
unfolding decode_escape
decode_escape-plain c d h = (ground arith, ground arith, ground arith, ground arith)

slashes-push : (s : Bytes) (b : ℕ) → slashes (s ++ b ∷ []) ≡ slashes s + slashes (b ∷ [])
slashes-push s b = slashes-append s (b ∷ [])

slashes-decode_from :
    (bs decoded out : Bytes)
    → decode_from bs decoded ≡ ok out
    → slashes out ≡ slashes decoded + slashes bs
unfolding decode_from slashes
slashes-decode_from [] decoded out h = ground arith
slashes-decode_from (b ∷ []) decoded out h = ground (arith, slashes-push decoded b)
slashes-decode_from (b ∷ c ∷ []) decoded out h =
    ground (arith, slashes-push decoded b, slashes-decode_from (c ∷ []) (decoded ++ b ∷ []) out)
slashes-decode_from (b ∷ c ∷ d ∷ bs) decoded out h = elim (Result-cases (decode_escape c d)) [
  | inl (byte, good) ↦ ground (
    arith,
    good,
    decode_escape-plain c d good,
    slashes-push decoded b,
    slashes-push decoded byte,
    slashes-decode_from (c ∷ d ∷ bs) (decoded ++ b ∷ []) out,
    slashes-decode_from bs (decoded ++ byte ∷ []) out,
  )
  | inr (fault, bad) ↦
      ground (
        arith,
        bad,
        slashes-push decoded b,
        slashes-decode_from (c ∷ d ∷ bs) (decoded ++ b ∷ []) out,
      )
]

slashes-decode_percent_path :
    (path : Bytes) {decoded : Bytes}
    → decode_percent_path path ≡ ok decoded
    → slashes decoded ≡ slashes path
unfolding decode_percent_path from_utf8 slashes
slashes-decode_percent_path path h =
    let (raw, read, valid) = >>=-eq-ok (decode_from path []) from_utf8 h in
    ground (arith, slashes-decode_from path [] raw read)

-- How many percent signs a path has.
unfoldable pub percents : Bytes → ℕ
percents [] = 0
percents (b ∷ bs) = (if b == b'%' then 1 else 0) + percents bs

decode_escape-hex : (c d : ℕ) {b : ℕ} → decode_escape c d ≡ ok b → (c ≢ b'%') × (d ≢ b'%')
unfolding decode_escape
decode_escape-hex c d h = (ground arith, ground arith)

length-push : (s : Bytes) (b : ℕ) → length (s ++ b ∷ []) ≡ length s + 1
length-push s b = omega (arith, length-append s (b ∷ []))

length-decode_from :
    (bs decoded out : Bytes)
    → decode_from bs decoded ≡ ok out
    → length out + 2 * percents bs ≡ length decoded + length bs
unfolding decode_from percents
length-decode_from [] decoded out h = ground arith
length-decode_from (b ∷ []) decoded out h = ground (arith, length-push decoded b)
length-decode_from (b ∷ c ∷ []) decoded out h =
    ground (arith, length-push decoded b, length-decode_from (c ∷ []) (decoded ++ b ∷ []) out)
length-decode_from (b ∷ c ∷ d ∷ bs) decoded out h = elim (Result-cases (decode_escape c d)) [
  | inl (byte, good) ↦ ground (
    arith,
    good,
    decode_escape-hex c d good,
    length-push decoded b,
    length-push decoded byte,
    length-decode_from (c ∷ d ∷ bs) (decoded ++ b ∷ []) out,
    length-decode_from bs (decoded ++ byte ∷ []) out,
  )
  | inr (fault, bad) ↦
      ground
        (arith, bad, length-push decoded b, length-decode_from (c ∷ d ∷ bs) (decoded ++ b ∷ []) out)
]

length-decode_percent_path :
    (path : Bytes) {decoded : Bytes}
    → decode_percent_path path ≡ ok decoded
    → length decoded + 2 * percents path ≡ length path
unfolding decode_percent_path from_utf8
length-decode_percent_path path h =
    let (raw, read, valid) = >>=-eq-ok (decode_from path []) from_utf8 h in
    ground (arith, length-decode_from path [] raw read)

NoNul-push : (s : Bytes) (b : ℕ) → NoNul s → b ≢ 0 → NoNul (s ++ b ∷ [])
NoNul-push s b h k = All-append (λ b. b ≢ 0) s (b ∷ []) h (k, tt)

NoNul-decode_from :
    (bs decoded out : Bytes) → NoNul decoded → decode_from bs decoded ≡ ok out → NoNul out
unfolding decode_from
NoNul-decode_from [] decoded out n h = ground arith
NoNul-decode_from (b ∷ []) decoded out n h = ground (arith, NoNul-push decoded b n)
NoNul-decode_from (b ∷ c ∷ []) decoded out n h =
    ground (arith, NoNul-push decoded b n, NoNul-decode_from (c ∷ []) (decoded ++ b ∷ []) out)
NoNul-decode_from (b ∷ c ∷ d ∷ bs) decoded out n h = elim (Result-cases (decode_escape c d)) [
  | inl (byte, good) ↦ ground (
    arith,
    good,
    decode_escape-plain c d good,
    NoNul-push decoded b n,
    NoNul-push decoded byte n,
    NoNul-decode_from (c ∷ d ∷ bs) (decoded ++ b ∷ []) out,
    NoNul-decode_from bs (decoded ++ byte ∷ []) out,
  )
  | inr (fault, bad) ↦
      ground
        (arith, bad, NoNul-push decoded b n, NoNul-decode_from (c ∷ d ∷ bs) (decoded ++ b ∷ []) out)
]

pub decode_percent_path-IsText :
    (path : Bytes) {decoded : Bytes}
    → decode_percent_path path ≡ ok decoded
    → NoNul decoded × (is_utf8 decoded ≡ true)
unfolding decode_percent_path from_utf8
decode_percent_path-IsText path h =
    let (raw, read, valid) = >>=-eq-ok (decode_from path []) from_utf8 h in
    ground (arith, NoNul-decode_from path [] raw tt read)

-- A decoded path is UTF-8 and holds no NUL. Decoding neither adds nor removes a slash, so each
-- separator of the decoded text was a plain slash of the request; and each percent sign of the request
-- was one of an escape, which is two bytes longer than the byte that it stands for.
pub decode_percent_path_output :
    (path : Bytes) {decoded : Bytes}
    → decode_percent_path path ≡ ok decoded
    → NoNul decoded
      × (is_utf8 decoded ≡ true)
      × (slashes decoded ≡ slashes path)
      × (length decoded + 2 * percents path ≡ length path)
decode_percent_path_output path h =
    let (no_nul, valid) = decode_percent_path-IsText path h in
    (no_nul, valid, slashes-decode_percent_path path h, length-decode_percent_path path h)
