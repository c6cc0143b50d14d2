-- ===== src/SysTimer/Interval.antt =====
-- src/reactor/SystemTimer.cpp (setInterval).
use generic_server.Prelude.{ℕ, suc, ◌+◌, ◌*◌, ◌%◌, ◌<◌, ◌≡◌, Bool, true, false, none, some, ◌⊎◌}
use generic_server.Prelude.Int.{ℤ, pos, negsuc}
use generic_server.SysTimer.Defs.{SysTimer, TimeSpec, TimerSpec, set_interval}

-- A time of so many nanoseconds.
abbrev pub Lasts : ℕ → TimeSpec → Type 0
Lasts n s =
    (sec : ℕ) × (nsec : ℕ) × (s.tv_sec ≡ pos sec)
    × (s.tv_nsec ≡ pos nsec)
    × (sec * 1000000000 + nsec ≡ n)

-- The nanoseconds are in the range that timerfd_settime asks for.
abbrev pub IsProper : TimeSpec → Type 0
IsProper s =
    (sec : ℕ) × (nsec : ℕ) × (s.tv_sec ≡ pos sec) × (s.tv_nsec ≡ pos nsec) × (nsec < 1000000000)

-- timerfd_settime takes times that are not negative with nanoseconds below a second, and fails with
-- EINVAL where the nanoseconds of the first expiry are negative.
pub record IsKernel (accepts : TimerSpec → Bool) : Type 0 where
  pub takes : (v : TimerSpec) → IsProper v.it_interval → IsProper v.it_value → accepts v ≡ true
  pub refuses : (v : TimerSpec) (n : ℕ) → v.it_value.tv_nsec ≡ negsuc n → accepts v ≡ false

-- What setInterval makes of a number of milliseconds: one that is not negative gives a timer whose
-- first expiry and interval are that long; a negative one that is not a number of whole seconds
-- aborts.
abbrev pub Intervals : (TimerSpec → Bool) → SysTimer → ℤ → Type 0
Intervals accepts t (pos ms) =
    (u : SysTimer) × (set_interval accepts (pos ms) t ≡ some u)
    × Lasts (ms * 1000000) u.value.it_interval
    × Lasts (ms * 1000000) u.value.it_value
Intervals accepts t (negsuc ms) = (suc ms % 1000 ≡ 0) ⊎ (set_interval accepts (negsuc ms) t ≡ none)
