-- ===== src/SysTimer/Tests.antt =====
-- src/reactor/SystemTimer.cpp at concrete inputs.
use generic_server.Prelude.{◌≡◌, refl, Bool, true, false, ◌&&◌, ltb, none}
use generic_server.Prelude.Int.{ℤ, pos, negsuc}
use generic_server.SysTimer.Defs.{TimeSpec, TimerSpec, init, set_interval, set_time}

unfoldable below : ℤ → Bool
below (pos n) = ltb n 1000000000
below (negsuc n) = false

unfoldable is_some_time : ℤ → Bool
is_some_time (pos n) = true
is_some_time (negsuc n) = false

abbrev is_proper : TimeSpec → Bool
is_proper s = is_some_time s.tv_sec && below s.tv_nsec

abbrev kernel : TimerSpec → Bool
kernel v = below v.it_value.tv_nsec && (is_proper v.it_interval && is_proper v.it_value)

-- Minus a second and a half is refused.
negative : set_interval kernel (negsuc 1499) (init (pos 4)) ≡ none
unfolding set_interval set_time below is_some_time
negative = refl
