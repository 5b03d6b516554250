-- ===== src/Startup/SocketAddr/Whole.antt =====
-- The texts that `SocketAddr::from_str` reads: an address, a colon and a port.
use tiny_httpd.Base.{
  ℕ, ◌≡◌, ◌≢◌, Option, none, some, [], ◌∷◌, ◌++◌, list_laws, append-nil, Bytes, length, arith, ap,
  ◌∙◌,
}
use tiny_httpd.Startup.SocketAddr.{
  Parser, ◌>>=◌, ◌>>◌, or_else, read_ipv4_addr, read_port, read_socket_addr_v4, read_socket_addr_v6,
  socket_port,
}
use tiny_httpd.Startup.SocketAddr.Eats.{Left, LeftOf, Eats, Eats-given, Eats-ipv4, LeftOf-weaken}
use tiny_httpd.Startup.SocketAddr.Ipv6.{Eats-ipv6, Eats-scope}
use tiny_httpd.Startup.SocketAddr.Port.{IsDecimal, PortOf, read_port-PortOf}

-- An address in front, and a port behind it to the end.
abbrev pub AddressOf : Bytes → Option ℕ → Type 0
AddressOf s none = Unit
AddressOf s (some port) =
    (host digits : Bytes) × (s ≡ host ++ (b':' ∷ digits)) × (host ≢ []) × IsDecimal digits port

abbrev EndOf : Bytes → Option (ℕ × Bytes) → Type 0
EndOf s none = Unit
EndOf s (some (port, rest)) =
    (host digits : Bytes) × (s ≡ host ++ (b':' ∷ (digits ++ rest)))
    × (host ≢ [])
    × IsDecimal digits port

EndOf-PortOf : {A : Type 0} (p : Parser A) → Eats 1 p → (s : Bytes) → EndOf s ((p >> read_port) s)
EndOf-PortOf p eats s =
    elim (p s)
        as (λ o.
          LeftOf 1 s o
          → EndOf s (elim o as (λ x. Option (ℕ × Bytes)) [
            | none ↦ none
            | some (a, rest) ↦ read_port rest
          ])) [ none ↦ λ h. tt | some (a, t) ↦ λ h. go t h (read_port t) (read_port-PortOf t) ]
      (eats s)
  where
    go : (t : Bytes) → Left 1 s t → (o : Option (ℕ × Bytes)) → PortOf t o → EndOf s o
    go t (host, split, long) none h = tt
    go t (host, split, long) (some (port, rest)) (digits, behind, more) = (
      host,
      digits,
      split ∙ ap (λ r. host ++ r) behind,
      (λ none_there. ground (arith, long, none_there, ap length none_there)),
      more,
    )

append-ne-nil : (front host : Bytes) → host ≢ [] → front ++ host ≢ []
append-ne-nil [] host named = named
append-ne-nil (c ∷ front) host named = λ none_there. cc

-- More in front is more of the address.
EndOf-behind : (s t : Bytes) (o : Option (ℕ × Bytes)) → Left 0 s t → EndOf t o → EndOf s o
EndOf-behind s t none h e = tt
EndOf-behind s t (some (port, rest)) (front, split, long)
      (host, digits, behind, named, decimal_there) =
    (
      front ++ host,
      digits,
      simp (split, behind, list_laws),
      append-ne-nil front host named,
      decimal_there,
    )

EndOf-bind :
    {A : Type 0} (p : Parser A) (f : A → Parser ℕ)
    → Eats 0 p
    → ((a : A) (s : Bytes) → EndOf s (f a s))
    → (s : Bytes) → EndOf s ((p >>= f) s)
EndOf-bind p f eats ends s =
    elim (p s)
        as (λ o.
          LeftOf 0 s o
          → EndOf s
              (elim o as (λ x. Option (ℕ × Bytes)) [ none ↦ none | some (a, rest) ↦ f a rest ])) [
                | none ↦ λ h. tt
                | some (a, t) ↦ λ h. EndOf-behind s t (f a t) h (ends a t)
              ]
      (eats s)

either-EndOf : (s : Bytes) → EndOf s (or_else read_socket_addr_v4 read_socket_addr_v6 s)
unfolding read_socket_addr_v4 read_socket_addr_v6
either-EndOf s =
    elim (read_socket_addr_v4 s)
        as (λ o.
          EndOf s o
          → EndOf s (elim o as (λ x. Option (ℕ × Bytes)) [
            | some r ↦ some r
            | none ↦ read_socket_addr_v6 s
          ])) [
            | none ↦ λ h.
                EndOf-bind _ _ (λ t. LeftOf-weaken 1 0 t _ (Eats-given b'[' t))
                  (λ a.
                    EndOf-bind _ _ Eats-ipv6
                      (λ a. EndOf-bind _ _ Eats-scope (λ a. EndOf-PortOf _ (Eats-given b']'))))
                  s
            | some r ↦ λ h. h
          ]
      (EndOf-PortOf read_ipv4_addr (λ t. LeftOf-weaken 2 1 t _ (Eats-ipv4 t)) s)

pub socket_port-AddressOf : (s : Bytes) → AddressOf s (socket_port s)
unfolding socket_port
socket_port-AddressOf s =
    elim (or_else read_socket_addr_v4 read_socket_addr_v6 s)
        as (λ o.
          EndOf s o
          → AddressOf s (elim o as (λ x. Option ℕ) [
            | some (port, []) ↦ some port
            | some (port, c ∷ t) ↦ none
            | none ↦ none
          ])) [
            | none ↦ λ h. tt
            | some (port, []) ↦ λ (host, digits, split, named, more). (
              host,
              digits,
              split ∙ ap (λ r. host ++ (b':' ∷ r)) (append-nil digits),
              named,
              more,
            )
            | some (port, c ∷ t) ↦ λ h. tt
          ]
      (either-EndOf s)
