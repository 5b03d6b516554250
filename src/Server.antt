-- ===== src/Server.antt =====
-- src/server/: the accept loop, one task for each connection, and the wrapper round its stream.
-- Time is in milliseconds.
pub mod ActivityIo
pub mod Params
pub mod Connection
pub mod Accept
pub mod System
pub mod Serving
