-- ===== src/Tests.antt =====
-- Runs of the model on small inputs, taken from the repository's own tests where they fit, and the
-- theorems at concrete inputs.
mod Site
mod Paths
mod Requests
mod Delivered
mod Failures
mod Shutdown
mod Idle
mod System
mod Serving
mod Startup
mod Source
