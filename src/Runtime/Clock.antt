-- ===== src/Runtime/Clock.antt =====
-- src/runtime/clock.rs: times for the protocol and deadlines. A `Duration` is its number of
-- nanoseconds.
use swbt_rs.Base.{ℕ, ◌+◌, ◌-◌, min, Bool, leb}
use swbt_rs.Runtime.Scheduler.{duration_limit}

abbrev pub max_u64 : ℕ
max_u64 = 18_446_744_073_709_551_615

unfoldable pub fits_protocol_timestamp : ℕ → Bool
fits_protocol_timestamp duration = leb duration max_u64

unfoldable pub protocol_timestamp : ℕ → ℕ
protocol_timestamp now = min now max_u64

-- `saturating_add`
unfoldable pub deadline_after : ℕ → ℕ → ℕ
deadline_after now duration = min (now + duration) (duration_limit - 1)
