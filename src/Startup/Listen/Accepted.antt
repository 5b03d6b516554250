-- ===== src/Startup/Listen/Accepted.antt =====
-- Which listen addresses src/bin/tiny-httpd.rs accepts.
use tiny_httpd.Base.{
  ℕ, ◌≡◌, ◌≢◌, ◌↔◌, ◌⊎◌, inl, inr, refl, Bool, true, false, not, Bool-cases, Option-cases, ◌&&◌,
  Option, none, some, [], ◌∷◌, ◌++◌, ◌==◌, if◌then◌else◌, Bytes, begins_with, ends_with, ok, ok_or,
  fail_if, arith, ap, ◌∙◌, sym, ==_refl, >>=-eq-ok,
}
use tiny_httpd.Startup.Listen.{
  has, rsplit_once, parse_u16, is_empty, check_host_port, check_split, parse_listen_addr, no_host,
  no_brackets, bad_port, port_zero,
}
use tiny_httpd.Startup.Listen.Port.{IsPort, parse_u16_sound, parse_u16_complete}

Split : ℕ → Bytes → Option (Bytes × Bytes) → Type 0
Split c s none = has c s ≡ false
Split c s (some (host, port)) = (s ≡ host ++ c ∷ port) × (has c port ≡ false)

rsplit_once-Split : (c : ℕ) (s : Bytes) → Split c s (rsplit_once c s)
unfolding rsplit_once has Split
rsplit_once-Split c [] = refl
rsplit_once-Split c (x ∷ s) =
    elim (rsplit_once c s)
        as (λ o.
          Split c s o
          → Split c (x ∷ s) (elim o [
            | some (host, port) ↦ some (x ∷ host, port)
            | none ↦ if x == c then some ([], s) else none
          ])) [
            | none ↦ λ rest. elim (Bool-cases (x == c)) [
              | inl found ↦ rw found (ground (arith, found), rest)
              | inr other ↦ rw (other, other) rest
            ]
            | some (host, port) ↦ λ rest. (ap (λ t. x ∷ t) rest.0, rest.1)
          ]
      (rsplit_once-Split c s)

rsplit_once-absent : (c : ℕ) (s : Bytes) → has c s ≡ false → rsplit_once c s ≡ none
unfolding rsplit_once has
rsplit_once-absent c [] h = refl
rsplit_once-absent c (x ∷ s) h = ground (arith, rsplit_once-absent c s)

rsplit_once_complete :
    (c : ℕ) (host port : Bytes)
    → has c port ≡ false
    → rsplit_once c (host ++ c ∷ port) ≡ some (host, port)
unfolding rsplit_once
rsplit_once_complete c [] port h = rw (rsplit_once-absent c port h, ==_refl c) refl
rsplit_once_complete c (x ∷ host) port h = rw (rsplit_once_complete c host port h) refl

-- A host and a port, as the help text has them.
pub record IsHostPort (value host port : Bytes) (number : ℕ) : Type 0 where
  pub split : value ≡ host ++ b':' ∷ port
  pub last : has b':' port ≡ false
  pub named : host ≢ []
  pub bracketed :
      (has b':' host ≡ false) ⊎ ((begins_with b'[' host ≡ true) × (ends_with b']' host ≡ true))
  pub port_number : IsPort port number
  pub positive : number ≢ 0

abbrev pub Accepts : (Bytes → Option ℕ) → Bytes → Type 0
Accepts socket_port value =
    ((port : ℕ) × (socket_port value ≡ some port) × (port ≢ 0))
    ⊎ ((socket_port value ≡ none)
        × ((host port : Bytes) × (number : ℕ) × IsHostPort value host port number))

fail_if-eq-ok :
    (test : Bool) (message : Bytes) {u : Unit {0}} → fail_if test message ≡ ok u → test ≡ false
fail_if-eq-ok test message h = ground arith

ok_or-eq-ok : (o : Option ℕ) (message : Bytes) {n : ℕ} → ok_or o message ≡ ok n → o ≡ some n
ok_or-eq-ok o message h = ground arith

check_host_port_sound :
    (value host port : Bytes) {out : Bytes}
    → value ≡ host ++ b':' ∷ port
    → has b':' port ≡ false
    → check_host_port value host port ≡ ok out
    → (out ≡ value) × ((number : ℕ) × IsHostPort value host port number)
unfolding check_host_port
check_host_port_sound value host port split last h =
    let (_, named, h1) = >>=-eq-ok (fail_if (is_empty host) no_host) _ h in
    let (_, bracketed, h2) =
      >>=-eq-ok
        (fail_if (has b':' host && not (begins_with b'[' host && ends_with b']' host)) no_brackets)
        _ h1 in
    let (number, parsed, h3) = >>=-eq-ok (ok_or (parse_u16 port) bad_port) _ h2 in
    let (_, positive, h4) = >>=-eq-ok (fail_if (number == 0) port_zero) _ h3 in
    let shape = fail_if-eq-ok _ _ bracketed in
    (
      ground (arith, h4),
      (
        number,
        record {
          split = split;
          last = last;
          named = λ none_there.
              let some_there = fail_if-eq-ok _ _ named in ground (arith, none_there, some_there);
          bracketed = ground (arith, shape);
          port_number = parse_u16_sound port number (ok_or-eq-ok _ _ parsed);
          positive = λ zero_there.
              let nonzero = fail_if-eq-ok _ _ positive in ground (arith, zero_there, nonzero);
        },
      ),
    )

check_host_port_complete :
    (value host port : Bytes) (number : ℕ)
    → IsHostPort value host port number
    → check_host_port value host port ≡ ok value
unfolding check_host_port
check_host_port_complete value [] port number i = absurd (i.named refl)
check_host_port_complete value (c ∷ s) port number i =
    rw (parse_u16_complete port number i.port_number) (ground (arith, i.bracketed, i.positive))

module _ (socket_port : Bytes → Option ℕ) (value : Bytes) where
  address_sound :
      (port : ℕ) {out : Bytes}
      → socket_port value ≡ some port
      → parse_listen_addr socket_port value ≡ ok out
      → (out ≡ value) × (port ≢ 0)
  unfolding parse_listen_addr
  address_sound port e h = ground arith

  text_parsed :
      socket_port value ≡ none
      → parse_listen_addr socket_port value ≡ check_split value (rsplit_once b':' value)
  unfolding parse_listen_addr
  text_parsed e = rw (e, parse_listen_addr) refl

check_split_sound :
    (value out : Bytes) (o : Option (Bytes × Bytes))
    → Split b':' value o
    → check_split value o ≡ ok out
    → (out ≡ value) × ((host port : Bytes) × (number : ℕ) × IsHostPort value host port number)
unfolding check_split Split
check_split_sound value out none absent failed = cc
check_split_sound value out (some (host, port)) (split, last) checked =
    let (same, (number, shape)) = check_host_port_sound value host port split last checked in
    (same, (host, port, number, shape))

parse_listen_addr_complete :
    (socket_port : Bytes → Option ℕ) (value out : Bytes)
    → out ≡ value
    → Accepts socket_port value
    → parse_listen_addr socket_port value ≡ ok out
unfolding parse_listen_addr check_split
parse_listen_addr_complete socket_port value out same (inl (port, e, positive)) = ground arith
parse_listen_addr_complete socket_port value out same (inr (e, (host, port, number, shape))) =
    let halves : rsplit_once b':' value ≡ some (host, port) =
      rw shape.split (rsplit_once_complete b':' host port shape.last) in
    text_parsed socket_port value e
    ∙ rw (halves, same, check_split) (check_host_port_complete value host port number shape)

-- Exactly these listen addresses are accepted, and handed on as they stand: socket addresses with a
-- port other than 0, and otherwise a host and, behind the last colon, a port from 1 to 65535 in
-- decimal, one plus sign allowed, where the host is not empty and stands in brackets if it has a
-- colon of its own. `socket_port` may be any reader of socket addresses.
pub parse_listen_addr_iff :
    (socket_port : Bytes → Option ℕ) (value out : Bytes)
    → (parse_listen_addr socket_port value ≡ ok out) ↔ ((out ≡ value) × Accepts socket_port value)
parse_listen_addr_iff socket_port value out = (
  λ h. elim (Option-cases (socket_port value)) [
    | inl e ↦
        let (same, shape) =
          check_split_sound value out _ (rsplit_once-Split b':' value)
            (sym (text_parsed socket_port value e) ∙ h) in
        (same, inr (e, shape))
    | inr (port, e) ↦
        let (same, positive) = address_sound socket_port value port e h in
        (same, inl (port, e, positive))
  ],
  λ accepted. parse_listen_addr_complete socket_port value out accepted.0 accepted.1,
)
