-- ===== src/Fs/Utf8.antt =====
-- `String::from_utf8` of the standard library, which src/fs.rs calls on the decoded bytes: the
-- well-formed byte sequences of the Unicode standard, checked a byte at a time.
use tiny_httpd.Base.{
  ℕ, zero, suc, Bool, true, false, ◌&&◌, [], ◌∷◌, ltb, leb, ◌==◌, if◌then◌else◌, Bytes, Result, ok,
  err,
}
use tiny_httpd.Fs.Error.{ResolveError, invalid_utf8}

-- Between two characters; or with `more` bytes to come after the next, which lies in a range; or
-- past an ill-formed byte.
pub data Utf8State : Type 0 where
  start : Utf8State
  inside : (more lo hi : ℕ) → Utf8State
  ill_formed : Utf8State

lead_byte : ℕ → Utf8State
lead_byte b =
    if ltb b 0x80
    then start
    else if ltb b 0xc2
    then ill_formed
    else if ltb b 0xe0
    then inside 0 0x80 0xbf
    else if b == 0xe0
    then inside 1 0xa0 0xbf
    else if b == 0xed
    then inside 1 0x80 0x9f
    else if ltb b 0xf0
    then inside 1 0x80 0xbf
    else if b == 0xf0
    then inside 2 0x90 0xbf
    else if ltb b 0xf4
    then inside 2 0x80 0xbf
    else if b == 0xf4
    then inside 2 0x80 0x8f
    else ill_formed

after_byte : ℕ → Utf8State
after_byte zero = start
after_byte (suc more) = inside more 0x80 0xbf

utf8_step : Utf8State → ℕ → Utf8State
unfolding lead_byte after_byte
utf8_step start b = lead_byte b
utf8_step (inside more lo hi) b = if leb lo b && leb b hi then after_byte more else ill_formed
utf8_step ill_formed b = ill_formed

utf8_run : Utf8State → Bytes → Utf8State
utf8_run s [] = s
utf8_run s (b ∷ bs) = utf8_run (utf8_step s b) bs

is_start : Utf8State → Bool
is_start start = true
is_start _ = false

unfoldable pub is_utf8 : Bytes → Bool
unfolding utf8_run utf8_step is_start
is_utf8 bs = is_start (utf8_run start bs)

-- `String::from_utf8(decoded).map_err(|_| ResolveError::InvalidUtf8)`
unfoldable pub from_utf8 : Bytes → Result ResolveError Bytes
from_utf8 bs = if is_utf8 bs then ok bs else err invalid_utf8
