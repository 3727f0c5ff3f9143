-- ===== src/Lua.antt =====
-- lua/: the selector and the statistics sink that run in a Lua script.
pub mod Values
pub mod Tables
pub mod PathTables
pub mod Interpreter
pub mod Selector
pub mod StatsTables
pub mod Stats
pub mod Script
pub mod Turns
