-- ===== src/Taps.antt =====
-- taps/: the properties and preferences of the abstract transport interface.
pub mod Enums
pub mod Stringer
pub mod Preferences
pub mod Properties
pub mod Heap
pub mod Preconnection
pub mod DefaultSelector
pub mod Defaults
