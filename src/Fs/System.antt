-- ===== src/Fs/System.antt =====
-- What src/fs.rs, src/handler/routing.rs and src/bin/tiny-httpd.rs ask of `tokio::fs`, as an
-- interface. The state `W` is the world outside: a call may answer anything and change it, so two
-- calls on one path may differ. `File` is an open file.
use tiny_httpd.Base.{List, ◌∷◌, Bool, Bytes, ℕ, Result}
use tiny_httpd.Fs.Error.{IoError}

pub record Metadata : Type 0 where
  pub is_dir : Bool
  pub is_file : Bool
  pub len : ℕ

pub record FileSystem (W File : Type 0) : Type 0 where
  pub canonicalize : Bytes → W → Result IoError Bytes × W
  pub metadata : Bytes → W → Result IoError Metadata × W
  pub open_file : Bytes → W → Result IoError File × W

-- A call, with the path it is about.
pub data Call : Type 0 where
  canonicalized inspected opened : Bytes → Call

abbrev pub call_path : Call → Bytes
call_path (canonicalized p) = p
call_path (inspected p) = p
call_path (opened p) = p

abbrev logged : {W A : Type 0} → Call → List Call → A × W → A × (W × List Call)
logged call log r = (r.0, (r.1, call ∷ log))

-- The same file system with a log of its calls, the last one first.
unfoldable pub recording : {W File : Type 0} → FileSystem W File → FileSystem (W × List Call) File
recording fs = record {
  canonicalize = λ p s. logged (canonicalized p) s.1 (fs.canonicalize p s.0);
  metadata = λ p s. logged (inspected p) s.1 (fs.metadata p s.0);
  open_file = λ p s. logged (opened p) s.1 (fs.open_file p s.0);
}

-- A file system that nobody writes to: each path has one answer.
pub record Snapshot (File : Type 0) : Type 0 where
  pub canonical : Bytes → Result IoError Bytes
  pub info : Bytes → Result IoError Metadata
  pub file : Bytes → Result IoError File

unfoldable pub static : {File : Type 0} → Snapshot File → FileSystem (Unit {0}) File
static snapshot = record {
  canonicalize = λ p s. (snapshot.canonical p, s);
  metadata = λ p s. (snapshot.info p, s);
  open_file = λ p s. (snapshot.file p, s);
}
