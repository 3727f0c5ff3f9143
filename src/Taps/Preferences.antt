-- ===== src/Taps/Preferences.antt =====
-- taps/connection_preferences.go. Go's `uint8` enumerations are numbers.
use panapi.Prelude.{ℕ, Bool}

pub record ConnectionPreferences : Type 0 where
  pub conn_timeout : ℕ  -- `time.Duration` in nanoseconds
  pub conn_capacity_profile : ℕ  -- `CapacityProfile`
  pub multipath_policy : ℕ  -- `MultipathPolicy`
  pub isolate_session : Bool
