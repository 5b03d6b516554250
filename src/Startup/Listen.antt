-- ===== src/Startup/Listen.antt =====
-- src/bin/tiny-httpd.rs, `parse_listen_addr`, with `str::rsplit_once` and `u16::from_str` of the
-- standard library. `SocketAddr::from_str` is a parameter, as the port of the address that it
-- reads (`Startup.SocketAddr`); it is asked first, and what it accepts is not looked at again.
pub mod Port
pub mod Uniform
pub mod Accepted
use tiny_httpd.Base.{
  ℕ, zero, suc, ◌+◌, ◌-◌, ◌*◌, Bool, true, false, not, ◌&&◌, ◌||◌, Option, none, some, List, [],
  ◌∷◌, ◌==◌, if◌then◌else◌, ltb, leb, Bytes, codes, begins_with, ends_with, Result, ok, err, ok_or,
  fail_if, ◌>>=◌, ◌>>◌,
}

-- `str::contains` and `str::rsplit_once` with a character of one byte.
unfoldable pub has : ℕ → Bytes → Bool
has c [] = false
has c (x ∷ s) = (x == c) || has c s

unfoldable pub rsplit_once : ℕ → Bytes → Option (Bytes × Bytes)
rsplit_once c [] = none
rsplit_once c (x ∷ s) = elim (rsplit_once c s) [
  | some (host, port) ↦ some (x ∷ host, port)
  | none ↦ if x == c then some ([], s) else none
]

abbrev pub is_digit : ℕ → Bool
is_digit c = leb b'0' c && leb c b'9'

-- The digits of a `u16`, behind those read already; an overflow is an error.
unfoldable pub parse_digits : ℕ → Bytes → Option ℕ
parse_digits value [] = some value
parse_digits value (c ∷ s) =
    let next = value * 10 + (c - b'0') in
    let rest = parse_digits next s in if is_digit c && ltb next 65536 then rest else none

-- `u16::from_str`: one plus sign may stand in front of the digits.
unfoldable pub parse_u16 : Bytes → Option ℕ
unfolding parse_digits
parse_u16 [] = none
parse_u16 (c ∷ []) = parse_digits 0 (c ∷ [])
parse_u16 (c ∷ d ∷ s) = if c == b'+' then parse_digits 0 (d ∷ s) else parse_digits 0 (c ∷ d ∷ s)

abbrev pub port_zero : Bytes
port_zero = codes "port must be greater than 0"

abbrev pub no_separator : Bytes
no_separator = codes "must be a SocketAddr or host:port"

abbrev pub no_host : Bytes
no_host = codes "host must not be empty"

abbrev pub no_brackets : Bytes
no_brackets = codes "IPv6 addresses must be enclosed in brackets, e.g. [::1]:8080"

abbrev pub bad_port : Bytes
bad_port = codes "port must be a valid 16-bit unsigned integer"

abbrev pub is_empty : Bytes → Bool
is_empty [] = true
is_empty (_ ∷ _) = false

-- What follows the split.
unfoldable pub check_host_port : Bytes → Bytes → Bytes → Result Bytes Bytes
unfolding has begins_with ends_with parse_u16
check_host_port value host port = do
  fail_if (is_empty host) no_host
  fail_if (has b':' host && not (begins_with b'[' host && ends_with b']' host)) no_brackets
  number ← ok_or (parse_u16 port) bad_port
  fail_if (number == 0) port_zero
  ok value

-- The `let … else` on the split.
unfoldable pub check_split : Bytes → Option (Bytes × Bytes) → Result Bytes Bytes
unfolding check_host_port
check_split value none = err no_separator
check_split value (some (host, port)) = check_host_port value host port

unfoldable pub parse_listen_addr : (Bytes → Option ℕ) → Bytes → Result Bytes Bytes
unfolding rsplit_once check_split
parse_listen_addr socket_port value = elim (socket_port value) [
  | some port ↦ do fail_if (port == 0) port_zero; ok value
  | none ↦ check_split value (rsplit_once b':' value)
]
