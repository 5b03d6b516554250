-- ===== src/Fs/Decode.antt =====
-- src/fs.rs, `hex_value` and `decode_percent_path`. A byte is a number below 256, and the path is
-- the list of its bytes.

pub mod Loop
pub mod Output
pub mod RoundTrip
use Prim.Native.Nat.{bit_or}
use tiny_httpd.Base.{
  ℕ, zero, suc, ◌+◌, ◌-◌, ◌*◌, ◌%◌, ◌≡◌, refl, Bool, true, false, ◌&&◌, Option, none, some, List,
  [], ◌∷◌, ◌++◌, ltb, leb, ◌==◌, if◌then◌else◌, Bytes, Result, ok, err, ok_or, ◌>>=◌, length,
  get_elem?,
}
use tiny_httpd.Fs.Error.{ResolveError, invalid_percent_encoding, encoded_slash, null_byte}
use tiny_httpd.Fs.Utf8.{from_utf8}

-- The ranges make the subtractions exact.
unfoldable pub hex_value : ℕ → Option ℕ
hex_value byte =
    if leb b'0' byte && leb byte b'9'
    then some (byte - b'0')
    else if leb b'a' byte && leb byte b'f'
    then some (byte - b'a' + 10)
    else if leb b'A' byte && leb byte b'F'
    then some (byte - b'A' + 10)
    else none

-- One escape, from its two digits to the byte that is pushed: `(high << 4) | low` on `u8`.
unfoldable pub decode_escape : ℕ → ℕ → Result ResolveError ℕ
unfolding hex_value
decode_escape first second = do
  high ← ok_or (hex_value first) invalid_percent_encoding
  low ← ok_or (hex_value second) invalid_percent_encoding
  let byte = bit_or (high * 16 % 256) low
  if byte == b'/' then err encoded_slash else if byte == 0 then err null_byte else ok byte

-- The loop on the bytes not read yet, `bytes[index..]`: `index + 2 >= bytes.len()` is that fewer
-- than two follow the `%`.
unfoldable pub decode_from : Bytes → Bytes → Result ResolveError Bytes
decode_from [] decoded = ok decoded
decode_from (b ∷ []) decoded =
    if b == b'%'
    then err invalid_percent_encoding
    else if b == 0
    then err null_byte
    else ok (decoded ++ b ∷ [])
decode_from (b ∷ c ∷ []) decoded =
    let rest = decode_from (c ∷ []) (decoded ++ b ∷ []) in
    if b == b'%' then err invalid_percent_encoding else if b == 0 then err null_byte else rest
decode_from (b ∷ c ∷ d ∷ bs) decoded =
    let escaped = decode_escape c d >>= (λ byte. decode_from bs (decoded ++ byte ∷ [])) in
    let plain = decode_from (c ∷ d ∷ bs) (decoded ++ b ∷ []) in
    if b == b'%' then escaped else if b == 0 then err null_byte else plain

unfoldable pub decode_percent_path : Bytes → Result ResolveError Bytes
unfolding decode_from decode_escape
decode_percent_path path = decode_from path [] >>= from_utf8
