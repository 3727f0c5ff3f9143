-- ===== src/Rpc.antt =====
-- rpc/: the daemon's services and their clients.
pub mod PathMsg
pub mod Interfaces
pub mod ServerSelector
pub mod SelectorServer
pub mod SelectorClient
pub mod Loopback
pub mod ConnectionTracer
pub mod Tracer
pub mod Setup
