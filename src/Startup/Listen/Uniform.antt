-- ===== src/Startup/Listen/Uniform.antt =====
-- What every listen address that src/bin/tiny-httpd.rs accepts looks like.
use tiny_httpd.Base.{
  ℕ, ◌≡◌, ◌≢◌, inl, inr, refl, false, [], ◌∷◌, ◌++◌, Bytes, ok, arith, subst, All,
}
use tiny_httpd.Startup.Listen.{has, parse_listen_addr}
use tiny_httpd.Startup.Listen.Accepted.{parse_listen_addr_iff}
use tiny_httpd.Startup.Listen.Port.{IsDigit, IsPort}
use tiny_httpd.Startup.SocketAddr.{socket_port}
use tiny_httpd.Startup.SocketAddr.Whole.{AddressOf, socket_port-AddressOf}

has-digits : (digits : Bytes) → All IsDigit digits → has b':' digits ≡ false
unfolding has
has-digits [] all = refl
has-digits (c ∷ digits) (is_digit, all) = ground (arith, is_digit, has-digits digits all)

-- An accepted listen address is handed on as it stands. It is a host that is not empty, a colon, and
-- behind it, with no further colon, a port from 1 to 65535 in decimal, one plus sign allowed, whether
-- it is a socket address or a host name.
pub parse_listen_addr_uniform :
    (value : Bytes) {out : Bytes}
    → parse_listen_addr socket_port value ≡ ok out
    → (out ≡ value)
      × ((host port : Bytes) × (number : ℕ) × (value ≡ host ++ (b':' ∷ port))
          × (has b':' port ≡ false)
          × (host ≢ [])
          × IsPort port number
          × (number ≢ 0))
parse_listen_addr_uniform value {out} h =
    let (same, accepted) = (parse_listen_addr_iff socket_port value out).0 h in
    elim accepted [
      | inl (number, e, positive) ↦
          let (host, digits, split, named, decimal_there) =
            subst (AddressOf value) e (socket_port-AddressOf value) in
          (
            same,
            (
              host,
              digits,
              number,
              split,
              has-digits digits decimal_there.all_digits,
              named,
              (
                digits,
                inl refl,
                decimal_there.some_there,
                decimal_there.all_digits,
                decimal_there.same,
                decimal_there.small,
              ),
              positive,
            ),
          )
      | inr (e, (host, port, number, shape)) ↦ (
        same,
        (
          host, port, number, shape.split, shape.last, shape.named, shape.port_number,
          shape.positive,
        ),
      )
    ]
