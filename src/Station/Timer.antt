-- ===== src/Station/Timer.antt =====
-- timer/timer.go: the door timer, with times and durations in milliseconds.
use heis_test.Prelude.{ℕ, ◌+◌, Bool, true, false, ◌&&◌, ltb}

pub record Timer : Type 0 where
  pub end_time : ℕ
  pub active : Bool

-- The package's variables before the first call.
abbrev pub idle_timer : Timer
idle_timer = record { end_time = 0; active = false }

-- `Start`.
unfoldable pub start : ℕ → ℕ → Timer → Timer
start now duration t = record { end_time = now + duration; active = true }

-- `Stop`.
unfoldable pub stop : Timer → Timer
stop t = record t { active = false }

-- `TimedOut`.
unfoldable pub timed_out : ℕ → Timer → Bool
timed_out now t = t.active && ltb t.end_time now
