-- ===== src/Examples.antt =====
-- examples/: the programs that show the library.
pub mod Copy
pub mod Report
pub mod Options
pub mod Workers
pub mod Clients
pub mod Servers
