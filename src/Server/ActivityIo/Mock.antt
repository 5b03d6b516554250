-- ===== src/Server/ActivityIo/Mock.antt =====
-- `MockIo` of src/server/activity_io.rs, the stream that its tests wrap. A buffer holds `capacity`
-- bytes; what a read copies into it is not kept.
use tiny_httpd.Base.{
  ℕ, ◌+◌, ◌-◌, min, false, List, [], ◌∷◌, ◌++◌, if◌then◌else◌, leb, length, Bytes, ok,
}
use tiny_httpd.Server.ActivityIo.{Poll, ready, Stream}

pub record MockIo : Type 0 where
  pub read_data : Bytes
  pub read_offset : ℕ
  pub write_data : Bytes

unfoldable pub with_read_data : Bytes → MockIo
with_read_data read_data = record { read_data = read_data; read_offset = 0; write_data = [] }

-- With a buffer that holds `filled` bytes.
unfoldable pub mock_read : ℕ → ℕ → MockIo → Poll (Unit {0}) × ℕ × MockIo
mock_read capacity filled self =
    if leb (length self.read_data) self.read_offset
    then (ready (ok tt), filled, self)
    else let to_copy = min (length self.read_data - self.read_offset) (capacity - filled) in
      (ready (ok tt), filled + to_copy, record self { read_offset = self.read_offset + to_copy })

unfoldable pub mock_write : Bytes → MockIo → Poll ℕ × MockIo
mock_write buf self = (ready (ok (length buf)), record self { write_data = self.write_data ++ buf })

-- The default of the trait writes the first buffer that is not empty.
abbrev pub first_buffer : List Bytes → Bytes
first_buffer [] = []
first_buffer ([] ∷ bufs) = first_buffer bufs
first_buffer ((b ∷ buf) ∷ bufs) = b ∷ buf

unfoldable pub mock : ℕ → Stream MockIo
unfolding mock_read mock_write
mock capacity = record {
  poll_read = mock_read capacity;
  poll_write = mock_write;
  poll_flush = λ self. (ready (ok tt), self);
  poll_shutdown = λ self. (ready (ok tt), self);
  poll_write_vectored = λ bufs self. mock_write (first_buffer bufs) self;
  is_write_vectored = λ self. false;
}
