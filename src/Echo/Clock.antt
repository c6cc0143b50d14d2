-- ===== src/Echo/Clock.antt =====
-- example/EchoServer.h with src/reactor/Timer.cpp: when the timer of the idle connections runs.
use native.Mathlib.Decide.{ℕ_discrete}
use generic_server.Prelude.{
  ℕ, ◌+◌, ◌*◌, ◌-◌, ◌%◌, ◌<◌, ◌≡◌, ◌≢◌, refl, sym, ap, ◌∙◌, true, some, List, [], ◌∷◌, arith, ◌==◌,
  if◌then◌else◌,
}
use generic_server.Wheel.{Entry, Wheel, round_size, entry, slot}
use generic_server.Wheel
use generic_server.Wheel.Ready.{IsValid}
use generic_server.Wheel.Fires.{wait_ticks}
use generic_server.Wheel.Kind.{Kind, waiting, again, count}
use generic_server.Wheel.DueNow.{due_now}
use generic_server.Wheel.Bag.{Ticked, tick-Ticked}
use generic_server.Wheel.Sole.{IsSole, times, tick-IsSole, times-due_now}
use generic_server.Idle.{IdleConnections}
use generic_server.Idle
use generic_server.Echo.Defs.{period, Worker, run_callbacks, expire}

-- The timers that the constructor of EchoServer makes for the idle connections `tid`.
abbrev pub idle_timer : ℕ → Kind
idle_timer tid = record { callback = tid; timeoutms = period; repeat = true }

-- The worker's wheel has one such timer, which runs after `rem` more ticks.
pub record IsTimed (tid rem : ℕ) (w : Wheel) : Type 0 where
  pub valid : IsValid w
  pub interval : w.interval ≡ period
  pub sole : IsSole (idle_timer tid) w
  pub one_waits : (j : ℕ) → waiting (idle_timer tid) j w ≡ (if j == rem then 1 else 0)

-- After how many ticks it runs again: a whole round passes when the position comes round.
abbrev pub next_rem : ℕ → ℕ → ℕ
next_rem cur rem = if rem == 0 then (if cur == 99 then 100 else 0) else rem - 1

-- The callbacks tick the idle connections as often as the timer runs.
run_callbacks-never :
    (tid : ℕ) (fs : List ℕ) (c : IdleConnections) → times tid fs ≡ 0 → run_callbacks tid fs c ≡ c
unfolding run_callbacks times
run_callbacks-never tid [] c h = refl
run_callbacks-never tid (f ∷ fs) c h = elim (ℕ_discrete f tid) [
  | yes e ↦ absurd (ground (arith, e, h))
  | no n ↦ same n ∙ run_callbacks-never tid fs c (ground (arith, n, h))
]
  where
    same :
        f ≢ tid
        → run_callbacks tid fs (if f == tid then (Idle.tick c).1 else c) ≡ run_callbacks tid fs c
    same n = ap (run_callbacks tid fs) (ground (arith, n))

run_callbacks-once :
    (tid : ℕ) (fs : List ℕ) (c : IdleConnections)
    → times tid fs ≡ 1
    → run_callbacks tid fs c ≡ (Idle.tick c).1
unfolding run_callbacks times
run_callbacks-once tid [] c h = absurd (omega arith)
run_callbacks-once tid (f ∷ fs) c h = elim (ℕ_discrete f tid) [
  | yes e ↦ hit e ∙ run_callbacks-never tid fs (Idle.tick c).1 (ground (arith, e, h))
  | no n ↦ same n ∙ run_callbacks-once tid fs c (ground (arith, n, h))
]
  where
    hit :
        f ≡ tid
        → run_callbacks tid fs (if f == tid then (Idle.tick c).1 else c)
          ≡ run_callbacks tid fs (Idle.tick c).1
    hit e = ap (run_callbacks tid fs) (ground (arith, e))

    same :
        f ≢ tid
        → run_callbacks tid fs (if f == tid then (Idle.tick c).1 else c) ≡ run_callbacks tid fs c
    same n = ap (run_callbacks tid fs) (ground (arith, n))

next_waits :
    (cur rem j : ℕ)
    → cur < 100
    → ◌≡◌ {A = ℕ}
        ((if j + 1 == rem then 1 else 0)
          + (if j + 1 == wait_ticks cur 1 then 1 else 0) * (if 0 == rem then 1 else 0))
        (if j == next_rem cur rem then 1 else 0)
next_waits cur rem j h = ground (arith, h)

again-period :
    (tid cur j : ℕ)
    → again (idle_timer tid) cur 1000 j ≡ (if j + 1 == wait_ticks cur 1 then 1 else 0)
unfolding again
again-period tid cur j = refl

-- A tick of the worker's wheel, and what it does to the idle connections.
abbrev pub Expired : ℕ → ℕ → Worker → Worker → Type 0
Expired tid rem s t =
    IsTimed tid (next_rem s.wheel.cur rem) t.wheel
    × (t.wheel.cur ≡ (s.wheel.cur + 1) % round_size)
    × (t.idle ≡ (if rem == 0 then (Idle.tick s.idle).1 else s.idle))

module _ (tid rem : ℕ) (w : Wheel) (k : IsTimed tid rem w) where
  runs :
      (fired : List ℕ)
      → fired ≡ due_now (slot w w.cur)
      → times tid fired ≡ (if 0 == rem then 1 else 0)
  runs fired e =
      ap (times tid) e
      ∙ times-due_now (idle_timer tid) (slot w w.cur) (k.sole w.cur)
      ∙ sym (ap (λ (s : ℕ). count (idle_timer tid) 0 (slot w s)) (omega (arith, k.valid.in_range)))
      ∙ k.one_waits 0

  run_callbacks-lem :
      (fired : List ℕ) (c : IdleConnections)
      → fired ≡ due_now (slot w w.cur)
      → run_callbacks tid fired c ≡ (if rem == 0 then (Idle.tick c).1 else c)
  run_callbacks-lem fired c e = elim (ℕ_discrete rem 0) [
    | yes z ↦ run_callbacks-once tid fired c (runs fired e ∙ ground (arith, z)) ∙ ground (arith, z)
    | no n ↦ run_callbacks-never tid fired c (runs fired e ∙ ground (arith, n)) ∙ ground (arith, n)
  ]

  tick-IsTimed :
      (w' : Wheel) (fired : List ℕ)
      → Wheel.tick w ≡ some (w', fired)
      → Ticked w w' fired
      → IsTimed tid (next_rem w.cur rem) w'
  tick-IsTimed w' fired e m = record {
    valid = m.0.0;
    interval = m.0.2 ∙ k.interval;
    sole = tick-IsSole (idle_timer tid) w w' fired k.valid k.sole e;
    one_waits = λ j.
        m.2 (idle_timer tid) j
        ∙ rw (k.interval, k.one_waits (j + 1), k.one_waits 0, again-period tid w.cur j)
            (next_waits w.cur rem j k.valid.in_range);
  }

pub expire-Expired :
    (tid rem : ℕ) (s : Worker)
    → IsTimed tid rem s.wheel
    → (t : Worker) × (expire tid s ≡ some t) × Expired tid rem s t
unfolding expire
expire-Expired tid rem s k =
    let (w, fired, e, m) = tick-Ticked s.wheel k.valid in
    (
      record { wheel = w; idle = run_callbacks tid fired s.idle },
      rw e refl,
      (
        tick-IsTimed tid rem s.wheel k w fired e m,
        m.0.1,
        run_callbacks-lem tid rem s.wheel k fired s.idle m.1,
      ),
    )
