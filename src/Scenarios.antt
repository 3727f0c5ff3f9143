-- ===== src/Scenarios.antt =====
-- Concrete addresses, paths, selectors and an interpreter, and runs of the program on them.
mod Setting
mod Rpc
mod Scripted
mod Turns
mod Pointers
mod Tracer
mod Lua
mod Stats
mod Taps
mod Pkg
mod Debug
mod Examples
mod Workers
mod Servers
mod Daemon
