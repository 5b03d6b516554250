-- ===== src/Fs.antt =====
-- src/fs.rs: from a request path to an open file inside the content root.
pub mod Error
pub mod Utf8
pub mod Decode
pub mod FilePath
pub mod Candidates
pub mod System
pub mod Resolve
