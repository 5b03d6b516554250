-- ===== src/Startup.antt =====
-- src/bin/tiny-httpd.rs: the values of the command line, the content root and the order of `main`.
pub mod SocketAddr
pub mod Listen
pub mod ContentRoot
pub mod Signal
pub mod Main
pub mod CommandLine
