-- ===== src/Server/ActivityIo/Transparent.antt =====
-- The wrapper of src/server/activity_io.rs seen from outside: the stream that it wraps, with a
-- signal for each call that moved bytes.
use tiny_httpd.Base.{
  ℕ, suc, ◌+◌, ◌≡◌, refl, Bool, not, ◌-◌, ◌==◌, ok, err, List, [], ◌∷◌, if◌then◌else◌, Bytes, arith,
}
use native.Mathlib.Nat.{add-zero}
use tiny_httpd.Server.ActivityIo.{Poll, pending, ready, Stream, wrote, filled_more, wrap}

-- A call of the stream, and what came of it.
pub data Op : Type 0 where
  read : ℕ → Op
  write : Bytes → Op
  flush shutdown asks_vectored : Op
  write_vectored : List Bytes → Op

pub data Out : Type 0 where
  did_read : (before after : ℕ) → Poll (Unit {0}) → Out
  did_write : Poll ℕ → Out
  did_control : Poll (Unit {0}) → Out
  answered : Bool → Out

module _ {T : Type 0} (io : Stream T) where
  unfoldable pub call : Op → T → Out × T
  call (read n) t = let (r, m, t') = io.poll_read n t in (did_read n m r, t')
  call (write b) t = let (r, t') = io.poll_write b t in (did_write r, t')
  call flush t = let (r, t') = io.poll_flush t in (did_control r, t')
  call shutdown t = let (r, t') = io.poll_shutdown t in (did_control r, t')
  call asks_vectored t = (answered (io.is_write_vectored t), t)
  call (write_vectored bs) t = let (r, t') = io.poll_write_vectored bs t in (did_write r, t')

  unfoldable pub calls : List Op → T → List Out × T
  unfolding call
  calls [] t = ([], t)
  calls (op ∷ ops) t =
      let (out, t') = call op t in let (outs, last) = calls ops t' in (out ∷ outs, last)

-- How many bytes a call has moved: those that a read has added to its buffer, or those that a write
-- says that it took.
abbrev pub bytes_moved : Out → ℕ
bytes_moved (did_read before after (ready (ok u))) = after - before
bytes_moved (did_write (ready (ok written))) = written
bytes_moved _ = 0

unfoldable pub moved : Out → Bool
moved out = not (bytes_moved out == 0)

unfoldable pub transfers : List Out → ℕ
transfers [] = 0
transfers (o ∷ os) = if moved o then suc (transfers os) else transfers os

-- The tests of the source are that at least one byte was moved.
filled_more-moved :
    (before after : ℕ) (r : Poll (Unit {0}))
    → filled_more r before after ≡ moved (did_read before after r)
unfolding filled_more moved
filled_more-moved before after pending = refl
filled_more-moved before after (ready (ok u)) = ground arith
filled_more-moved before after (ready (err e)) = refl

wrote-moved : (r : Poll ℕ) → wrote r ≡ moved (did_write r)
unfolding wrote moved
wrote-moved pending = refl
wrote-moved (ready (ok n)) = ground arith
wrote-moved (ready (err e)) = refl

pub call-wrap :
    {T : Type 0} (io : Stream T) (op : Op) (t : T) (n : ℕ)
    → call (wrap io) op (record { inner = t; signals = n }) ≡ (
      (call io op t).0,
      record { inner = (call io op t).1; signals = if moved (call io op t).0 then suc n else n },
    )
unfolding call wrap moved
call-wrap io (read m) t n = rw (filled_more-moved m (io.poll_read m t).1 (io.poll_read m t).0)
call-wrap io (write b) t n = rw (wrote-moved (io.poll_write b t).0)
call-wrap io flush t n = refl
call-wrap io shutdown t n = refl
call-wrap io asks_vectored t n = refl
call-wrap io (write_vectored bs) t n = rw (wrote-moved (io.poll_write_vectored bs t).0)

shift : (b : Bool) (n k : ℕ) → (if b then suc n else n) + k ≡ n + (if b then suc k else k)
shift b n k = ground arith

-- Over any sequence of calls the wrapped stream returns what the stream itself returns and leaves
-- it in the same state, and `notify_one` is called once for each call that moved bytes.
pub calls-wrap :
    {T : Type 0} (io : Stream T) (ops : List Op) (t : T) (n : ℕ)
    → let plain = calls io ops t in
      calls (wrap io) ops (record { inner = t; signals = n })
      ≡ (plain.0, record { inner = plain.1; signals = n + transfers plain.0 })
unfolding calls transfers
calls-wrap io [] t n = rw add-zero
calls-wrap io (op ∷ ops) t n =
    let (o, t') = call io op t in
    rw (
      call-wrap io op t n,
      calls-wrap io ops t' (if moved o then suc n else n),
      shift (moved o) n (transfers (calls io ops t').0),
    )
