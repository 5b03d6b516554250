-- ===== src/Startup/SocketAddr.antt =====
-- `SocketAddr::from_str` of the standard library, which src/bin/tiny-httpd.rs asks whether a listen
-- address is one and for its port: an IPv4 address, or an IPv6 address in brackets with perhaps a
-- scope, and a port. The groups of an address are counted and not kept.
pub mod Eats
pub mod Ipv6
pub mod Port
pub mod Whole
use tiny_httpd.Base.{
  ℕ, zero, suc, ◌+◌, ◌-◌, ◌*◌, ◌^◌, Bool, true, false, not, ◌&&◌, Option, none, some, List, [], ◌∷◌,
  ◌==◌, if◌then◌else◌, ltb, leb, Bytes, begins_with,
}

-- A parser leaves the rest of the text; where it fails, nothing is taken.
abbrev pub Parser : Type 0 → Type 0
Parser A = Bytes → Option (A × Bytes)

infixl 5 ◌>>=◌ ◌>>◌
abbrev pub ◌>>=◌ : {A B : Type 0} → Parser A → (A → Parser B) → Parser B
◌>>=◌ p f s = elim (p s) [ none ↦ none | some (a, rest) ↦ f a rest ]

abbrev pub ◌>>◌ : {A B : Type 0} → Parser A → Parser B → Parser B
p >> q = p >>= λ taken. q

abbrev pub pure : {A : Type 0} → A → Parser A
pure a s = some (a, s)

-- `or_else`, and `unwrap_or` on what may be missing.
abbrev pub or_else : {A : Type 0} → Parser A → Parser A → Parser A
or_else p q s = elim (p s) [ some r ↦ some r | none ↦ q s ]

-- `char::to_digit`, for the radices 10 and 16.
unfoldable pub to_digit : ℕ → ℕ → Option ℕ
to_digit radix c =
    if leb b'0' c && leb c b'9'
    then some (c - b'0')
    else if radix == 16 && leb b'a' c && leb c b'f'
    then some (c - b'a' + 10)
    else if radix == 16 && leb b'A' c && leb c b'F'
    then some (c - b'A' + 10)
    else none

-- A limit on the digits, or on the value where there is none.
unfoldable pub too_much : Option ℕ → ℕ → ℕ → ℕ → Bool
too_much none bound digits value = leb bound value
too_much (some max_digits) bound digits value = ltb max_digits digits

-- The loop over the digits: the value, how many there are, and the rest.
unfoldable pub read_digits : ℕ → Option ℕ → ℕ → ℕ → ℕ → Parser (ℕ × ℕ)
unfolding to_digit too_much
read_digits radix max_digits bound count value [] = some ((value, count), [])
read_digits radix max_digits bound count value (c ∷ s) = elim (to_digit radix c) [
  | none ↦ some ((value, count), c ∷ s)
  | some digit ↦
      let next = value * radix + digit in
      let rest = read_digits radix max_digits bound (count + 1) next s in
      if too_much max_digits bound (count + 1) next then none else rest
]

-- The checks behind the loop.
unfoldable pub check_number : ℕ → Bool → Bool → ℕ × ℕ → Parser ℕ
check_number bound allow_zero_prefix leading_zero (value, count) s =
    if count == 0
    then none
    else if not allow_zero_prefix && leading_zero && ltb 1 count
    then none
    else if ltb value bound
    then some (value, s)
    else none

-- `bound` is one more than the largest number of the type.
unfoldable pub read_number : ℕ → Option ℕ → Bool → ℕ → Parser ℕ
unfolding read_digits check_number begins_with
read_number radix max_digits allow_zero_prefix bound s =
    (read_digits radix max_digits bound 0 0
        >>= check_number bound allow_zero_prefix (begins_with b'0' s))
      s

unfoldable pub read_given_char : ℕ → Parser (Unit {0})
read_given_char c [] = none
read_given_char c (d ∷ s) = if d == c then some (tt, s) else none

-- The first of a row has no separator in front.
unfoldable pub read_separator : {A : Type 0} → ℕ → Bool → Parser A → Parser A
unfolding read_given_char
read_separator c true p = p
read_separator c false p = read_given_char c >> p

unfoldable pub read_octet : Parser ℕ
unfolding read_number
read_octet = read_number 10 (some 3) false 256

unfoldable pub read_ipv4_addr : Parser (List ℕ)
unfolding read_octet read_given_char
read_ipv4_addr = do
  a ← read_octet
  read_given_char b'.'
  b ← read_octet
  read_given_char b'.'
  c ← read_octet
  read_given_char b'.'
  d ← read_octet
  pure (a ∷ b ∷ c ∷ d ∷ [])

unfoldable pub read_group : Bool → Parser ℕ
unfolding read_separator read_number
read_group is_first = read_separator b':' is_first (read_number 16 (some 4) true 65536)

-- An IPv4 address stands for two groups, where two are left.
unfoldable pub read_embedded : ℕ → Bool → Parser (List ℕ)
unfolding read_separator read_ipv4_addr
read_embedded zero is_first s = none
read_embedded (suc zero) is_first s = none
read_embedded (suc (suc left)) is_first s = read_separator b':' is_first read_ipv4_addr s

-- The groups that are there, at most `left`, and whether an IPv4 address ends them.
unfoldable pub read_groups : ℕ → Bool → Bytes → (ℕ × Bool) × Bytes
unfolding read_embedded read_group
read_groups zero is_first s = ((0, false), s)
read_groups (suc left) is_first s = elim (read_embedded (suc left) is_first s) [
  | some (octets, rest) ↦ ((2, true), rest)
  | none ↦ elim (read_group is_first s) [
    | none ↦ ((0, false), s)
    | some (group, rest) ↦
        let ((more, ipv4), rest') = read_groups left false rest in ((more + 1, ipv4), rest')
  ]
]

-- What follows the groups in front: nothing, or `::` and the groups at the back.
unfoldable pub read_back : ℕ × Bool → Parser (Unit {0})
unfolding read_given_char read_groups
read_back (head_size, head_ipv4) s =
    if head_size == 8
    then some (tt, s)
    else if head_ipv4
    then none
    else (do
      read_given_char b':'
      read_given_char b':'
      λ rest. let (sizes, rest') = read_groups (8 - (head_size + 1)) true rest in some (tt, rest'))
        s

unfoldable pub read_ipv6_addr : Parser (Unit {0})
unfolding read_groups read_back
read_ipv6_addr s = let (sizes, rest) = read_groups 8 true s in read_back sizes rest

unfoldable pub read_port : Parser ℕ
unfolding read_given_char read_number
read_port = do read_given_char b':'; read_number 10 none true 65536

unfoldable pub read_scope_id : Parser ℕ
unfolding read_given_char read_number
read_scope_id = do read_given_char b'%'; read_number 10 none true (2 ^ 32)

unfoldable pub read_socket_addr_v4 : Parser ℕ
unfolding read_ipv4_addr read_port
read_socket_addr_v4 = do read_ipv4_addr; read_port

unfoldable pub read_socket_addr_v6 : Parser ℕ
unfolding read_given_char read_ipv6_addr read_scope_id read_port
read_socket_addr_v6 = do
  read_given_char b'['
  read_ipv6_addr
  or_else read_scope_id (pure 0)
  read_given_char b']'
  read_port

-- The whole text is an address; its port.
unfoldable pub socket_port : Bytes → Option ℕ
unfolding read_socket_addr_v4 read_socket_addr_v6
socket_port value = elim (or_else read_socket_addr_v4 read_socket_addr_v6 value) [
  | some (port, []) ↦ some port
  | some (port, c ∷ s) ↦ none
  | none ↦ none
]
