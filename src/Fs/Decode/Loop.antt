-- ===== src/Fs/Decode/Loop.antt =====
-- src/fs.rs, the `while` loop of `decode_percent_path` as it is written, with its index and its
-- slice accesses. `none` stands for a panic by an index out of bounds, and for fuel run out.
use tiny_httpd.Base.{
  ℕ, zero, suc, ◌+◌, ◌-◌, ◌<◌, ◌≡◌, refl, Option, none, some, [], ◌∷◌, ◌++◌, ltb, leb, ◌==◌,
  if◌then◌else◌, Bytes, Result, ok, err, length, get_elem?, drop, get_elem?-drop, drop-drop,
  length-drop, arith, Result-cases, inl, inr, ◌>>=◌,
}
use native.Mathlib.Nat.{add-zero}
use tiny_httpd.Fs.Error.{ResolveError, invalid_percent_encoding, null_byte}
use tiny_httpd.Fs.Utf8.{from_utf8}
use tiny_httpd.Fs.Decode.{decode_escape, decode_from, decode_percent_path}

-- What one round does: go on with a new index and a longer output, leave the loop, or panic.
data Round : Type 0 where
  next : ℕ → Bytes → Round
  stop : Result ResolveError Bytes → Round
  panic : Round

decode_digits : Option ℕ → Option ℕ → ℕ → Bytes → Round
decode_digits (some first) (some second) index decoded = elim (decode_escape first second) [
  | ok byte ↦ next (index + 3) (decoded ++ byte ∷ [])
  | err e ↦ stop (err e)
]
decode_digits _ _ index decoded = panic

decode_byte : Option ℕ → Bytes → ℕ → Bytes → Round
unfolding decode_digits
decode_byte none bytes index decoded = panic
decode_byte (some b) bytes index decoded =
    if b == b'%'
    then if leb (length bytes) (index + 2)
      then stop (err invalid_percent_encoding)
      else decode_digits (get_elem? bytes (index + 1)) (get_elem? bytes (index + 2)) index decoded
    else if b == 0
    then stop (err null_byte)
    else next (index + 1) (decoded ++ b ∷ [])

decode_round : Bytes → ℕ → Bytes → Round
unfolding decode_byte
decode_round bytes index decoded =
    if ltb index (length bytes)
    then decode_byte (get_elem? bytes index) bytes index decoded
    else stop (ok decoded)

pub decode_loop : ℕ → Bytes → ℕ → Bytes → Option (Result ResolveError Bytes)
decode_loop zero bytes index decoded = none
decode_loop (suc fuel) bytes index decoded = elim (decode_round bytes index decoded) [
  | next index' decoded' ↦ decode_loop fuel bytes index' decoded'
  | stop r ↦ some r
  | panic ↦ none
]

-- One round, read off the bytes that are left.
suffix_round : Bytes → ℕ → Bytes → Round
unfolding decode_digits
suffix_round [] index decoded = stop (ok decoded)
suffix_round (b ∷ bs) index decoded =
    if b == b'%'
    then elim bs [
      | [] ↦ stop (err invalid_percent_encoding)
      | c ∷ cs ↦ elim cs [
        | [] ↦ stop (err invalid_percent_encoding)
        | d ∷ _ ↦ decode_digits (some c) (some d) index decoded
      ]
    ]
    else if b == 0
    then stop (err null_byte)
    else next (index + 1) (decoded ++ b ∷ [])

module _ (bytes : Bytes) (index : ℕ) {suffix : Bytes} (e : drop index bytes ≡ suffix) where
  read-suffix : (k : ℕ) → get_elem? bytes (index + k) ≡ get_elem? suffix k
  read-suffix k = rw (← e) (get_elem?-drop bytes index k)

  read_first : get_elem? bytes index ≡ get_elem? suffix 0
  read_first = rw add-zero at (read-suffix 0)

  length-suffix : length suffix ≡ length bytes - index
  length-suffix = rw (← e) (length-drop index bytes)

  drop-suffix : (k : ℕ) → drop (index + k) bytes ≡ drop k suffix
  drop-suffix k = rw (← e) (drop-drop bytes index k)

-- The loop's bounds test is exact: a round reads inside the slice, and does what the suffix says.
decode_round-suffix :
    (bytes : Bytes) (index : ℕ) (decoded suffix : Bytes)
    → drop index bytes ≡ suffix
    → decode_round bytes index decoded ≡ suffix_round suffix index decoded
unfolding decode_round suffix_round
decode_round-suffix bytes index decoded [] e = ground (arith, length-suffix bytes index e)
decode_round-suffix bytes index decoded (b ∷ []) e =
    ground (arith, length-suffix bytes index e, read_first bytes index e)
decode_round-suffix bytes index decoded (b ∷ c ∷ []) e =
    ground (arith, length-suffix bytes index e, read_first bytes index e)
decode_round-suffix bytes index decoded (b ∷ c ∷ d ∷ bs) e = ground (
  arith,
  length-suffix bytes index e,
  read_first bytes index e,
  read-suffix bytes index e 1,
  read-suffix bytes index e 2,
)

decode_loop-suffix :
    (fuel : ℕ) (bytes : Bytes) (index : ℕ) (decoded suffix : Bytes)
    → drop index bytes ≡ suffix
    → length suffix < fuel
    → decode_loop fuel bytes index decoded ≡ some (decode_from suffix decoded)
unfolding decode_loop decode_from suffix_round
decode_loop-suffix zero bytes index decoded suffix e h = elim h [ ]
decode_loop-suffix (suc fuel) bytes index decoded [] e h =
    rw (decode_round-suffix bytes index decoded [] e, decode_loop)
decode_loop-suffix (suc fuel) bytes index decoded (b ∷ []) e h = ground (
  arith,
  decode_round-suffix bytes index decoded (b ∷ []) e,
  decode_loop-suffix fuel bytes (index + 1) (decoded ++ b ∷ []) [] (drop-suffix bytes index e 1),
)
decode_loop-suffix (suc fuel) bytes index decoded (b ∷ c ∷ []) e h = ground (
  arith,
  decode_round-suffix bytes index decoded (b ∷ c ∷ []) e,
  decode_loop-suffix fuel bytes (index + 1) (decoded ++ b ∷ []) (c ∷ [])
      (drop-suffix bytes index e 1),
)
decode_loop-suffix (suc fuel) bytes index decoded (b ∷ c ∷ d ∷ bs) e h =
    elim (Result-cases (decode_escape c d)) [
      | inl (byte, good) ↦ ground (
        arith,
        good,
        decode_round-suffix bytes index decoded (b ∷ c ∷ d ∷ bs) e,
        decode_loop-suffix fuel bytes (index + 1) (decoded ++ b ∷ []) (c ∷ d ∷ bs)
            (drop-suffix bytes index e 1),
        decode_loop-suffix fuel bytes (index + 3) (decoded ++ byte ∷ []) bs
            (drop-suffix bytes index e 3),
      )
      | inr (fault, bad) ↦ ground (
        arith,
        bad,
        decode_round-suffix bytes index decoded (b ∷ c ∷ d ∷ bs) e,
        decode_loop-suffix fuel bytes (index + 1) (decoded ++ b ∷ []) (c ∷ d ∷ bs)
            (drop-suffix bytes index e 1),
      )
    ]

-- With one round more than the path has bytes, the loop of the source returns, never reads past the
-- end of the slice, and what it returns, checked to be UTF-8, is what `decode_percent_path` returns:
-- the text or the first error, on every path.
pub decode_loop_total :
    (path : Bytes)
    → (r : Result ResolveError Bytes) × (decode_loop (suc (length path)) path 0 [] ≡ some r)
      × (decode_percent_path path ≡ (r >>= from_utf8))
unfolding decode_percent_path
decode_loop_total path = (
  decode_from path [],
  decode_loop-suffix (suc (length path)) path 0 [] path refl (omega arith),
  refl,
)
