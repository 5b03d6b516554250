-- ===== src/Startup/CommandLine.antt =====
-- src/bin/tiny-httpd.rs, `Config::parse`: the defaults of the options, and the value parsers that the
-- attributes name. Where the text of an option comes from, a flag, the environment or the default, is
-- for `clap` to say, which also reports the first error; both are left out.
use tiny_httpd.Base.{
  ℕ, ◌≡◌, ◌≤◌, ◌↔◌, ◌≢◌, refl, [], Bytes, codes, Result, ok, err, ◌>>=◌, >>=-eq-ok, arith, subst,
  ap,
}
use tiny_httpd.Startup.SocketAddr.{socket_port}
use tiny_httpd.Startup.Listen.{parse_listen_addr}
use tiny_httpd.Startup.Listen.Accepted.{Accepts, parse_listen_addr_iff}
use tiny_httpd.Startup.ContentRoot.{parse_duration}
use tiny_httpd.Startup.Main.{Config}

-- The text of each option.
pub record Values : Type 0 where
  pub listen_addr : Bytes
  pub content_root : Bytes
  pub service_name : Bytes
  pub header_read_timeout : Bytes
  pub idle_connection_timeout : Bytes
  pub graceful_close_timeout : Bytes
  pub drain_timeout : Bytes

abbrev pub default_values : Values
default_values = record {
  listen_addr = codes "0.0.0.0:8080";
  content_root = codes "/app/public";
  service_name = codes "tiny-httpd";
  header_read_timeout = codes "30s";
  idle_connection_timeout = codes "60s";
  graceful_close_timeout = codes "5s";
  drain_timeout = codes "10s";
}

-- Any error of a value parser ends the program.
abbrev pub or_exit {ℓ} : {A : Type ℓ} → Result Bytes A → Result (Unit {0}) A
or_exit (ok value) = ok value
or_exit (err message) = err tt

abbrev pub config_of : Values → Bytes → Bytes → ℕ → ℕ → ℕ → ℕ → Config
config_of values addr root header idle graceful drain = record {
  listen_addr = addr;
  content_root = root;
  service_name = values.service_name;
  header_read_timeout = header;
  idle_connection_timeout = idle;
  graceful_close_timeout = graceful;
  drain_timeout = drain;
}

ok-inj : {c d : Config} → (let r : Result (Unit {0}) Config = ok c in r) ≡ ok d → c ≡ d
ok-inj h = cc

or_exit-eq-ok {ℓ} : {A : Type ℓ} (r : Result Bytes A) {a : A} → or_exit r ≡ ok a → r ≡ ok a
or_exit-eq-ok (ok value) h = cc
or_exit-eq-ok (err message) h = cc

-- What `clap` documents of its value parser for a `PathBuf`: it refuses the empty text, and takes any
-- other as it stands.
abbrev pub ReadsPaths : (Bytes → Result Bytes Bytes) → Type 0
ReadsPaths parse_path =
    (text root : Bytes) → (parse_path text ≡ ok root) ↔ ((text ≢ []) × (root ≡ text))

module _ (parse_path : Bytes → Result Bytes Bytes) (humantime : Bytes → Result Bytes ℕ) where
  unfoldable pub parse_config : Values → Result (Unit {0}) Config
  unfolding parse_listen_addr parse_duration
  parse_config values = do
    addr ← or_exit (parse_listen_addr socket_port values.listen_addr)
    root ← or_exit (parse_path values.content_root)
    header ← or_exit (parse_duration humantime values.header_read_timeout)
    idle ← or_exit (parse_duration humantime values.idle_connection_timeout)
    graceful ← or_exit (parse_duration humantime values.graceful_close_timeout)
    drain ← or_exit (parse_duration humantime values.drain_timeout)
    ok (config_of values addr root header idle graceful drain)

  -- `text` is a duration of at least a second.
  abbrev pub Lasts : Bytes → ℕ → Type 0
  Lasts text duration = (humantime text ≡ ok duration) × (1000 ≤ duration)

  abbrev pub IsRead : Values → Config → Type 0
  IsRead values config =
      Accepts socket_port values.listen_addr
      × (config.listen_addr ≡ values.listen_addr)
      × (values.content_root ≢ [])
      × (config.content_root ≡ values.content_root)
      × (config.service_name ≡ values.service_name)
      × Lasts values.header_read_timeout config.header_read_timeout
      × Lasts values.idle_connection_timeout config.idle_connection_timeout
      × Lasts values.graceful_close_timeout config.graceful_close_timeout
      × Lasts values.drain_timeout config.drain_timeout

  parse_duration_iff :
      (text : Bytes) (t : ℕ) → (or_exit (parse_duration humantime text) ≡ ok t) ↔ Lasts text t
  unfolding parse_duration
  parse_duration_iff text t = (
    (λ h.
        let (duration, read, h1) = >>=-eq-ok (humantime text) _ (or_exit-eq-ok _ h) in
        ground (arith, read, h1)),
    (λ (read, long). rw read (ground (arith, long))),
  )

  -- The program starts with a configuration exactly when every option can be read: the listen address
  -- is accepted, the content root is not empty, and each of the four timeouts is a duration of at least a second. The configuration
  -- has those durations and the other texts as they stand. The parser
  -- of paths is as `clap` documents it, and `humantime` may be any reader of durations.
  pub parse_config_iff :
      ReadsPaths parse_path
      → (values : Values) (config : Config)
      → (parse_config values ≡ ok config) ↔ IsRead values config
  unfolding parse_config
  parse_config_iff reads values config = (
    (λ h.
        let (addr, at, h1) =
          >>=-eq-ok (or_exit (parse_listen_addr socket_port values.listen_addr)) _ h in
        let (root, rooted, h2) = >>=-eq-ok (or_exit (parse_path values.content_root)) _ h1 in
        let (header, t1, h3) =
          >>=-eq-ok (or_exit (parse_duration humantime values.header_read_timeout)) _ h2 in
        let (idle, t2, h4) =
          >>=-eq-ok (or_exit (parse_duration humantime values.idle_connection_timeout)) _ h3 in
        let (graceful, t3, h5) =
          >>=-eq-ok (or_exit (parse_duration humantime values.graceful_close_timeout)) _ h4 in
        let (drain, t4, h6) =
          >>=-eq-ok (or_exit (parse_duration humantime values.drain_timeout)) _ h5 in
        let (present, kept) = (reads values.content_root root).0 (or_exit-eq-ok _ rooted) in
        let (same, accepted) =
          (parse_listen_addr_iff socket_port values.listen_addr addr).0 (or_exit-eq-ok _ at) in
        subst (IsRead values) (ok-inj h6) (
          accepted,
          same,
          present,
          kept,
          refl,
          (parse_duration_iff _ header).0 t1,
          (parse_duration_iff _ idle).0 t2,
          (parse_duration_iff _ graceful).0 t3,
          (parse_duration_iff _ drain).0 t4,
        )),
    (λ (accepted, same, present, kept, name, t1, t2, t3, t4).
        let listened =
          (parse_listen_addr_iff socket_port values.listen_addr config.listen_addr).1
            (same, accepted) in
        rw
          (
            ap or_exit listened,
            ap or_exit ((reads values.content_root config.content_root).1 (present, kept)),
            (parse_duration_iff values.header_read_timeout config.header_read_timeout).1 t1,
            (parse_duration_iff values.idle_connection_timeout config.idle_connection_timeout).1 t2,
            (parse_duration_iff values.graceful_close_timeout config.graceful_close_timeout).1 t3,
            (parse_duration_iff values.drain_timeout config.drain_timeout).1 t4,
            ← name,
          )
          refl),
  )
