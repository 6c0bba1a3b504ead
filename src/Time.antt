-- ===== src/Time.antt =====
-- include/ckit/time.h: instants as a number of seconds and a fraction. `time_t`, `long` and
-- `suseconds_t` are integers without a bound: signed overflow is undefined in C.
pub mod Timespec
pub mod Timeval
mod Tests
use libckit.Common.{ℕ}

abbrev pub nsec_per_sec : ℕ
nsec_per_sec = 1_000_000_000

abbrev pub usec_per_sec : ℕ
usec_per_sec = 1_000_000
