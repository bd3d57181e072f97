-- ===== src/Clock.antt =====
-- Time. A clock value (`time.time()`) and a stored instant (`iso`/`epoch` of app/v2/state.py) are
-- microseconds since the epoch, the resolution of `datetime.isoformat`; durations in the settings
-- are seconds. Subtraction stops at 0, which the code's `max(1, int(...))` makes exact.
use capstone_backend.Prelude.{ℕ, ◌+◌, ◌*◌, ◌/◌, max}

abbrev pub second : ℕ
second = 1000000

-- `seconds` as a duration of the clock
abbrev pub ticks : ℕ → ℕ
ticks seconds = seconds * second

-- `math.ceil` of a duration
abbrev pub ceil_seconds : ℕ → ℕ
ceil_seconds d = (d + 999999) / second

-- `max(1, int(d))`, the whole seconds that a store key lives at least
abbrev pub whole_ttl : ℕ → ℕ
whole_ttl d = max 1 (d / second)
