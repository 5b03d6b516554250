-- ===== src/Server/ActivityIo.antt =====
-- src/server/activity_io.rs. The wrapped stream is a parameter, through the interface that the
-- wrapper itself implements; `signals` counts the calls of `Notify::notify_one`.
pub mod Transparent
pub mod Mock
use tiny_httpd.Base.{
  ℕ, suc, ◌+◌, Bool, true, false, List, [], ◌∷◌, if◌then◌else◌, ltb, Bytes, Result, ok, err,
}
use tiny_httpd.Fs.Error.{IoError}

-- `Poll<io::Result<A>>`.
pub data Poll (A : Type 0) : Type 0 where
  pending : Poll A
  ready : Result IoError A → Poll A

-- `AsyncRead` and `AsyncWrite` of a stream in state `T`. A read takes how many bytes the buffer
-- holds and returns how many it holds then.
pub record Stream (T : Type 0) : Type 0 where
  pub poll_read : ℕ → T → Poll (Unit {0}) × ℕ × T
  pub poll_write : Bytes → T → Poll ℕ × T
  pub poll_flush : T → Poll (Unit {0}) × T
  pub poll_shutdown : T → Poll (Unit {0}) × T
  pub poll_write_vectored : List Bytes → T → Poll ℕ × T
  pub is_write_vectored : T → Bool

pub record ActivityIo (T : Type 0) : Type 0 where
  pub inner : T
  pub signals : ℕ

abbrev notify_if : Bool → ℕ → ℕ
notify_if moved signals = if moved then suc signals else signals

-- `written > 0`, on `Poll::Ready(Ok(written))` only.
unfoldable pub wrote : Poll ℕ → Bool
wrote (ready (ok written)) = ltb 0 written
wrote _ = false

-- `buf.filled().len() > filled_before`, on `Poll::Ready(Ok(()))` only.
unfoldable pub filled_more : Poll (Unit {0}) → ℕ → ℕ → Bool
filled_more (ready (ok _)) before after = ltb before after
filled_more _ before after = false

module _ {T : Type 0} (io : Stream T) where
  poll_read : ℕ → ActivityIo T → Poll (Unit {0}) × ℕ × ActivityIo T
  unfolding filled_more
  poll_read filled_before self =
      let (result, filled, inner') = io.poll_read filled_before self.inner in
      (
        result,
        filled,
        record {
          inner = inner';
          signals = notify_if (filled_more result filled_before filled) self.signals;
        },
      )

  poll_write : Bytes → ActivityIo T → Poll ℕ × ActivityIo T
  unfolding wrote
  poll_write buf self =
      let (result, inner') = io.poll_write buf self.inner in
      (result, record { inner = inner'; signals = notify_if (wrote result) self.signals })

  poll_flush : ActivityIo T → Poll (Unit {0}) × ActivityIo T
  poll_flush self =
      let (result, inner') = io.poll_flush self.inner in (result, record self { inner = inner' })

  poll_shutdown : ActivityIo T → Poll (Unit {0}) × ActivityIo T
  poll_shutdown self =
      let (result, inner') = io.poll_shutdown self.inner in (result, record self { inner = inner' })

  poll_write_vectored : List Bytes → ActivityIo T → Poll ℕ × ActivityIo T
  unfolding wrote
  poll_write_vectored bufs self =
      let (result, inner') = io.poll_write_vectored bufs self.inner in
      (result, record { inner = inner'; signals = notify_if (wrote result) self.signals })

  is_write_vectored : ActivityIo T → Bool
  is_write_vectored self = io.is_write_vectored self.inner

  unfoldable pub wrap : Stream (ActivityIo T)
  unfolding poll_read poll_write poll_flush poll_shutdown poll_write_vectored is_write_vectored
  wrap = record {
    poll_read = poll_read;
    poll_write = poll_write;
    poll_flush = poll_flush;
    poll_shutdown = poll_shutdown;
    poll_write_vectored = poll_write_vectored;
    is_write_vectored = is_write_vectored;
  }
