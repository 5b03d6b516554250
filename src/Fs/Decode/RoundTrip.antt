-- ===== src/Fs/Decode/RoundTrip.antt =====
-- A client's encoder as the specification of `decode_percent_path` in src/fs.rs.
use tiny_httpd.Base.{
  ℕ, zero, suc, ◌+◌, ◌-◌, ◌/◌, ◌%◌, ◌<◌, ◌≡◌, ◌≢◌, refl, ◌∙◌, Bool, true, ◌&&◌, ◌||◌, [], ◌∷◌, ◌++◌,
  append-nil, list_laws, ltb, ◌==◌, if◌then◌else◌, Bytes, Result, ok, err, All, arith, Bool-cases,
  inl, inr,
}
use tiny_httpd.Fs.Error.{ResolveError}
use tiny_httpd.Fs.Utf8.{is_utf8, from_utf8}
use tiny_httpd.Fs.Decode.{decode_escape, decode_from, decode_percent_path}

hex_digit : ℕ → ℕ
hex_digit n = if ltb n 10 then b'0' + n else b'A' + (n - 10)

-- The bytes that `keep` names stand for themselves, the others are escaped.
unfoldable pub encode : (ℕ → Bool) → Bytes → Bytes
unfolding hex_digit
encode keep [] = []
encode keep (b ∷ s) =
    let rest = encode keep s in
    if keep b then b ∷ rest else b'%' ∷ hex_digit (b / 16) ∷ hex_digit (b % 16) ∷ rest

-- A byte that a path can carry: not NUL, a slash only as it is, a percent sign only escaped.
pub record IsEncodable (keep : ℕ → Bool) (b : ℕ) : Type 0 where
  pub byte : b < 256
  pub nonzero : b ≢ 0
  pub no_percent : keep b ≡ true → b ≢ b'%'
  pub slash_kept : b ≡ b'/' → keep b ≡ true

-- One entry of the table of escapes: the byte comes back, but for NUL and the slash.
entry_of : ℕ → Result ResolveError ℕ → Bool
entry_of b (ok c) = c == b
entry_of b (err _) = (b == 0) || (b == b'/')

escape_entry : ℕ → Bool
unfolding hex_digit decode_escape entry_of
escape_entry b = entry_of b (decode_escape (hex_digit (b / 16)) (hex_digit (b % 16)))

-- The test holds of every byte code under a bound.
holds_up_to : (ℕ → Bool) → ℕ → Bool
holds_up_to test zero = true
holds_up_to test (suc bound) = holds_up_to test bound && test bound

holds_up_to_lem :
    (test : ℕ → Bool) (bound code : ℕ)
    → code < bound
    → holds_up_to test bound ≡ true
    → test code ≡ true
unfolding holds_up_to
holds_up_to_lem test zero code below h = absurd (omega arith)
holds_up_to_lem test (suc bound) code below h = ground (arith, holds_up_to_lem test bound code)

escape_table : holds_up_to escape_entry 256 ≡ true
unfolding holds_up_to escape_entry
escape_table = refl

entry_of-true :
    (b : ℕ) (r : Result ResolveError ℕ) → entry_of b r ≡ true → b ≢ 0 → b ≢ b'/' → r ≡ ok b
unfolding entry_of
entry_of-true b (ok c) h p q = ground arith
entry_of-true b (err e) h p q = ground arith

decode_escape-hex_digit :
    (b : ℕ)
    → b < 256
    → b ≢ 0
    → b ≢ b'/'
    → decode_escape (hex_digit (b / 16)) (hex_digit (b % 16)) ≡ ok b
decode_escape-hex_digit b h p q =
    entry_of-true b _ (unfold escape_entry in (holds_up_to_lem escape_entry 256 b h escape_table)) p
      q

decode_from-plain :
    (b : ℕ) (bs decoded : Bytes)
    → b ≢ b'%'
    → b ≢ 0
    → decode_from (b ∷ bs) decoded ≡ decode_from bs (decoded ++ b ∷ [])
unfolding decode_from
decode_from-plain b [] decoded p q = ground arith
decode_from-plain b (c ∷ []) decoded p q = ground arith
decode_from-plain b (c ∷ d ∷ bs) decoded p q = ground arith

decode_from-encode :
    (keep : ℕ → Bool) (s decoded : Bytes)
    → All (IsEncodable keep) s
    → decode_from (encode keep s) decoded ≡ ok (decoded ++ s)
unfolding encode decode_from
decode_from-encode keep [] decoded h = unfold decode_from in (rw append-nil)
decode_from-encode keep (b ∷ s) decoded (h, hs) = elim (Bool-cases (keep b)) [
  | inl kept ↦ rw kept (
      decode_from-plain b (encode keep s) decoded (h.no_percent kept) h.nonzero
      ∙ decode_from-encode keep s (decoded ++ b ∷ []) hs
      ∙ simp list_laws)
  | inr escaped ↦
      rw (escaped, decode_from, decode_escape-hex_digit b h.byte h.nonzero (ground arith))
        (decode_from-encode keep s (decoded ++ b ∷ []) hs ∙ simp list_laws)
]

-- Whichever bytes a client escapes, so long as it escapes every percent sign and no slash, a
-- UTF-8 path with no NUL comes out of the decoder as it went in.
pub decode_percent_path-encode :
    (keep : ℕ → Bool) (path : Bytes)
    → All (IsEncodable keep) path
    → is_utf8 path ≡ true
    → decode_percent_path (encode keep path) ≡ ok path
unfolding decode_percent_path from_utf8
decode_percent_path-encode keep path h valid = rw (decode_from-encode keep path [] h, valid)
