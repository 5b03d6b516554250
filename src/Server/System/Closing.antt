-- ===== src/Server/System/Closing.antt =====
-- How long a connection of src/server/accept.rs is open once the shutdown is sent.
use tiny_httpd.Base.{
  ℕ, ◌+◌, ◌≤◌, ◌<◌, ◌≡◌, ◌⊎◌, refl, true, false, Bool-cases, inl, inr, Option, none, some, List, [],
  ◌∷◌, All, ok, err, arith,
}
use tiny_httpd.Server.Params.{ServerParams}
use tiny_httpd.Server.Connection as Conn
use tiny_httpd.Server.Connection.{
  Connection, accept_connection, on_event, continues, broke, begin_graceful,
}
use tiny_httpd.Server.System.{Link, IsTold}

module _ (params : ServerParams) (delay : ℕ) where
  abbrev pub end : ℕ → ℕ
  end b = b + delay + params.graceful_close_timeout

  -- A closing connection is gone within its timeout; once the shutdown is sent, each is.
  abbrev pub Closing : ℕ → Option ℕ → Connection → Type 0
  Closing now none c = c.shutting_down ≡ true → c.deadline ≤ now + params.graceful_close_timeout
  Closing now (some b) c = (c.shutting_down ≡ true → c.deadline ≤ end b) × (now ≤ end b)

  abbrev pub Good : ℕ → Option ℕ → Link → Type 0
  Good now broadcast l = Closing now broadcast l.connection

  pub passes :
      (now time : ℕ) (broadcast : Option ℕ) (c : Connection)
      → now ≤ time
      → Closing now broadcast c
      → (time ≤ c.deadline) × IsTold delay time broadcast c
      → Closing time broadcast c
  passes now time none c order k (due, told) = λ h. omega (arith, k h)
  passes now time (some b) c order (k, by) (due, told) = (k, soon (Bool-cases c.shutting_down))
    where
      soon : (c.shutting_down ≡ true) ⊎ (c.shutting_down ≡ false) → time ≤ end b
      soon (inl closing) = omega (arith, k closing, due)
      soon (inr open_still) = omega (arith, told open_still)

  pub moved :
      (time : ℕ) (broadcast : Option ℕ) (c c' : Connection) (e : Conn.Event)
      → Closing time broadcast c
      → IsTold delay time broadcast c
      → on_event params time c e ≡ some (continues c')
      → Closing time broadcast c'
  unfolding on_event begin_graceful
  moved time none c c' (Conn.finished b) k told h = ground arith
  moved time none c c' Conn.deadline_elapsed k told h = λ closing. ground arith
  moved time none c c' (Conn.shutdown_changed (ok b)) k told h = λ closing. ground arith
  moved time none c c' (Conn.shutdown_changed (err u)) k told h = λ closing. ground arith
  moved time none c c' Conn.activity k told h = λ closing. ground arith
  moved time (some b) c c' (Conn.finished d) (k, by) told h = ground arith
  moved time (some b) c c' Conn.deadline_elapsed (k, by) told h = (λ closing. ground arith, by)
  moved time (some b) c c' (Conn.shutdown_changed (ok d)) (k, by) told h =
      (λ closing. ground arith, by)
  moved time (some b) c c' (Conn.shutdown_changed (err u)) (k, by) told h =
      (λ closing. ground arith, by)
  moved time (some b) c c' Conn.activity (k, by) told h = (λ closing. ground arith, by)

  -- When the drain times out, a running task would have outlived its own timeout.
  pub none_left :
      (time b : ℕ) (ls : List Link)
      → delay + params.graceful_close_timeout < params.drain_timeout
      → All (Good time (some b)) ls
      → b + params.drain_timeout ≤ time
      → ls ≡ []
  none_left time b [] short good over = refl
  none_left time b (l ∷ ls) short ((_, by), good) over = absurd (omega (arith, short, by, over))

  pub sent : (time : ℕ) (c : Connection) → Closing time none c → Closing time (some time) c
  sent time c k = ((λ h. omega (arith, k h)), omega arith)

  pub over : (now b : ℕ) (ls : List Link) → All (Good now (some b)) ls → end b < now → ls ≡ []
  over now b [] good late = refl
  over now b (l ∷ ls) ((_, by), good) late = absurd (omega (arith, by, late))
