-- ===== src/Pkg.antt =====
-- pkg/: the protocols that a preconnection can use.
pub mod Properties
pub mod Tcp
pub mod Quic
pub mod Inet
pub mod Scion
pub mod Refusals
pub mod Accepting
