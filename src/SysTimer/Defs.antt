-- ===== src/SysTimer/Defs.antt =====
-- src/reactor/SystemTimer.h and SystemTimer.cpp: the class SysTimer. An int that overflows is a
-- fault, `none`.
use generic_server.Prelude.{
  ℕ, zero, suc, ◌*◌, ◌/◌, ◌%◌, ◌^◌, Bool, Option, none, some, ltb, if◌then◌else◌,
}
use generic_server.Prelude.Int.{ℤ, pos, negsuc}
use generic_server.Event

pub record TimeSpec : Type 0 where
  pub tv_sec : ℤ
  pub tv_nsec : ℤ

-- itimerspec.
pub record TimerSpec : Type 0 where
  pub it_interval : TimeSpec
  pub it_value : TimeSpec

pub record SysTimer : Type 0 where
  pub timer_fd : ℤ
  pub value : TimerSpec

abbrev pub no_time : TimeSpec
no_time = record { tv_sec = pos 0; tv_nsec = pos 0 }

abbrev pub reset_value : SysTimer → SysTimer
reset_value t = record t { value = record { it_interval = no_time; it_value = no_time } }

-- The constructor SysTimer(), with the descriptor that createTimerFd gives.
abbrev pub init : ℤ → SysTimer
init fd = record { timer_fd = fd; value = record { it_interval = no_time; it_value = no_time } }

-- createTimerFd: a failure aborts.
unfoldable pub create_timer_fd : ℤ → Option ℤ
create_timer_fd (pos fd) = some (pos fd)
create_timer_fd (negsuc e) = none

-- setTime, where `accepts` is what timerfd_settime does with its argument: a failure aborts.
unfoldable pub set_time : (TimerSpec → Bool) → TimerSpec → SysTimer → Option SysTimer
set_time accepts v t = if accepts v then some t else none

-- Minus a number.
abbrev pub minus : ℕ → ℤ
minus zero = pos 0
minus (suc n) = negsuc n

-- `/` and `%` by a positive number: the quotient is cut off towards 0, and the remainder has the
-- sign of what is divided.
abbrev pub quotient : ℤ → ℕ → ℤ
quotient (pos n) k = pos (n / k)
quotient (negsuc n) k = minus (suc n / k)

abbrev pub remainder : ℤ → ℕ → ℤ
remainder (pos n) k = pos (n % k)
remainder (negsuc n) k = minus (suc n % k)

abbrev pub magnitude : ℤ → ℕ
magnitude (pos n) = n
magnitude (negsuc n) = suc n

-- `ms * 1000000` on an int.
abbrev pub millions : ℤ → ℤ
millions (pos n) = pos (n * 1000000)
millions (negsuc n) = minus (suc n * 1000000)

-- setInterval: the nanoseconds are an int.
unfoldable pub set_interval : (TimerSpec → Bool) → ℤ → SysTimer → Option SysTimer
set_interval accepts ms t =
    let n : ℤ = millions (remainder ms 1000) in
    let s : TimeSpec = record { tv_sec = quotient ms 1000; tv_nsec = n } in
    let v : TimerSpec = record { it_interval = s; it_value = s } in
    let r : SysTimer = reset_value t in
    if ltb (magnitude n) (2 ^ 31) then set_time accepts v (record r { value = v }) else none

-- handleRead: the number of expiries that it reads is thrown away; the callback is set or not.
abbrev pub handle_read {ℓ} : {S : Type ℓ} → Option (S → S) → ℕ → S → S
handle_read callback expiries s = Event.call callback s
