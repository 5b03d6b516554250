-- ===== src/Startup/SocketAddr/Ipv6.antt =====
-- What the parser of an IPv6 address and of its scope takes off the front of a text.
use tiny_httpd.Base.{
  if_keeps, ℕ, zero, suc, ◌+◌, ◌-◌, ◌^◌, Bool, true, false, Option, none, some, ◌==◌, Bytes,
}
use tiny_httpd.Startup.SocketAddr.{
  pure, or_else, read_ipv4_addr, read_group, read_embedded, read_groups, read_back, read_ipv6_addr,
  read_scope_id,
}
use tiny_httpd.Startup.SocketAddr.Eats.{
  Eats, Eats-bind, Eats-given, Eats-ipv4, Eats-number, Eats-or_else, Eats-pure, Eats-separator,
  Left, Left-refl, Left-trans, LeftOf, LeftOf-trans, LeftOf-weaken,
}

Eats-group : (is_first : Bool) → Eats 0 (read_group is_first)
unfolding read_group
Eats-group is_first = Eats-separator b':' is_first _ (Eats-number 16 (some 4) true 65536)

Eats-embedded : (left : ℕ) (is_first : Bool) → Eats 0 (read_embedded left is_first)
unfolding read_embedded
Eats-embedded zero is_first s = tt
Eats-embedded (suc zero) is_first s = tt
Eats-embedded (suc (suc left)) is_first s =
    Eats-separator b':' is_first read_ipv4_addr (λ t. LeftOf-weaken 3 0 t _ (Eats-ipv4 t)) s

-- The groups leave the end of the text.
Left-groups : (left : ℕ) (is_first : Bool) (s : Bytes) → Left 0 s (read_groups left is_first s).1
unfolding read_groups
Left-groups zero is_first s = Left-refl s
Left-groups (suc left) is_first s =
    elim (read_embedded (suc left) is_first s)
        as (λ o.
          LeftOf 0 s o
          → Left 0 s
              (elim o as (λ x. (ℕ × Bool) × Bytes) [
                | some (octets, rest) ↦ ((2, true), rest)
                | none ↦ elim (read_group is_first s) as (λ x. (ℕ × Bool) × Bytes) [
                  | none ↦ ((0, false), s)
                  | some (group, rest) ↦
                      let ((more, ipv4), rest') = read_groups left false rest in
                      ((more + 1, ipv4), rest')
                ]
              ]).1) [
                | some (octets, rest) ↦ λ h. h
                | none ↦ λ h.
                    elim (read_group is_first s)
                        as (λ o.
                          LeftOf 0 s o
                          → Left 0 s
                              (elim o as (λ x. (ℕ × Bool) × Bytes) [
                                | none ↦ ((0, false), s)
                                | some (group, rest) ↦
                                    let ((more, ipv4), rest') = read_groups left false rest in
                                    ((more + 1, ipv4), rest')
                              ]).1) [
                                | none ↦ λ i. Left-refl s
                                | some (group, rest) ↦
                                    λ i. Left-trans 0 0 s rest _ i (Left-groups left false rest)
                              ]
                      (Eats-group is_first s)
              ]
      (Eats-embedded (suc left) is_first s)

Eats-back : (sizes : ℕ × Bool) → Eats 0 (read_back sizes)
unfolding read_back
Eats-back (head_size, head_ipv4) s =
    if_keeps (λ (o : Option (Unit {0} × Bytes)). LeftOf {A = Unit {0}} 0 s o) (head_size == 8)
      (λ h. Left-refl s)
      (λ h.
        if_keeps (λ (o : Option (Unit {0} × Bytes)). LeftOf {A = Unit {0}} 0 s o) head_ipv4
          (λ i. tt {0})
          (λ i. LeftOf-weaken 2 0 s _ (
            Eats-bind 1 1 _ _ (Eats-given b':')
              (λ t.
                Eats-bind 1 0 _ _ (Eats-given b':')
                  (λ t rest. Left-groups (8 - (head_size + 1)) true rest))
              s)))

pub Eats-ipv6 : Eats 0 read_ipv6_addr
unfolding read_ipv6_addr
Eats-ipv6 s =
    let (sizes, rest) = read_groups 8 true s in
    LeftOf-trans 0 0 s rest _ (Left-groups 8 true s) (Eats-back sizes rest)

pub Eats-scope : Eats 0 (or_else read_scope_id (pure 0))
unfolding read_scope_id
Eats-scope =
    Eats-or_else 0 _ _
      (λ s.
        LeftOf-weaken 1 0 s _
          (Eats-bind 1 0 _ _ (Eats-given b'%') (λ t. Eats-number 10 none true (2 ^ 32)) s))
      (Eats-pure {A = ℕ} 0)
