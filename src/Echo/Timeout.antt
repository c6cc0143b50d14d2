-- ===== src/Echo/Timeout.antt =====
-- example/EchoServer.h with src/net/IdleConnections.cpp and src/reactor/Timer.cpp: how many ticks
-- of a loop's wheel an idle connection is kept for.
use mathlib.Core.Path.{subst}
use native.Mathlib.Decide.{ℕ_discrete}
use generic_server.Prelude.{
  ℕ, false, suc, ◌+◌, ◌%◌, ◌<◌, ◌≤◌, ◌≡◌, ◌≢◌, refl, sym, ap, ◌∙◌, Option, some, List, [], ◌∷◌,
  arith, ltb, leb, ◌==◌, if◌then◌else◌, ◌>>=◌,
}
use generic_server.Idle.{IdleConnections, slot_size, is_alive}
use generic_server.Idle
use generic_server.Idle.Expiry.{
  Op, ticks, adds, updates, count_ticks, Leaves, IsValid, Held, update-add, add-Held, tick-Held,
  touched-Held, Held-alive,
}
use generic_server.Echo.Defs.{Worker, expire}
use generic_server.Echo.Clock.{IsTimed, next_rem, expire-Expired}

-- What happens to a worker: its wheel ticks, and entries are added and updated.
unfoldable pub run : ℕ → List Op → Worker → Option Worker
run tid [] s = some s
run tid (ticks ∷ ops) s = do s' ← expire tid s; run tid ops s'
run tid (adds j ∷ ops) s = run tid ops (record s { idle = Idle.add j s.idle })
run tid (updates j ∷ ops) s = run tid ops (record s { idle = Idle.update j s.idle })

-- Where the timer is `n` ticks of the wheel and `d` runs after it was about to run at position
-- `c0`: in the first turn of the wheel, in the pause after it, in the next turn, or so late that it
-- does not matter.
data Clock (c0 n d c rem : ℕ) : Type 0 where
  first : n ≡ d → c ≡ c0 + n → rem ≡ 0 → Clock c0 n d c rem
  pause :
      d + c0 ≡ 100 → 1 ≤ rem → rem ≤ 100 → c0 + n + rem ≡ 200 → c + rem ≡ 100 → Clock c0 n d c rem
  second : rem ≡ 0 → c0 + n ≡ 200 + c → d + c0 ≡ 100 + c → Clock c0 n d c rem
  past : 60 ≤ d → 160 ≤ n → Clock c0 n d c rem

ticked : ℕ → ℕ → ℕ
ticked rem d = if rem == 0 then suc d else d

Clock-step :
    {c0 n d c rem : ℕ}
    → c0 < 100
    → c < 100
    → Clock c0 n d c rem
    → Clock c0 (suc n) (ticked rem d) ((c + 1) % 100) (next_rem c rem)
unfolding ticked
Clock-step {c0} {n} {d} {c} {rem} a b (first e f g) = elim (ℕ_discrete c 99) [
  | yes z ↦
      pause (ground (arith, e, f, g, z)) (ground (arith, e, f, g, z)) (ground (arith, e, f, g, z))
        (ground (arith, e, f, g, z)) (ground (arith, e, f, g, z))
  | no z ↦
      first (ground (arith, e, f, g, z)) (ground (arith, e, f, g, z, b))
        (ground (arith, e, f, g, z))
]
Clock-step {c0} {n} {d} {c} {rem} a b (pause e f g h i) = elim (ℕ_discrete rem 1) [
  | yes z ↦
      second (ground (arith, e, f, g, h, i, z)) (ground (arith, e, f, g, h, i, z))
        (ground (arith, e, f, g, h, i, z))
  | no z ↦
      pause (ground (arith, e, f, g, h, i, z)) (ground (arith, e, f, g, h, i, z))
        (ground (arith, e, f, g, h, i, z)) (ground (arith, e, f, g, h, i, z))
        (ground (arith, e, f, g, h, i, z))
]
Clock-step {c0} {n} {d} {c} {rem} a b (second e f g) = elim (ℕ_discrete c 99) [
  | yes z ↦ past (ground (arith, e, f, g, z, a)) (ground (arith, e, f, g, z, a))
  | no z ↦
      second (ground (arith, e, f, g, z, b)) (ground (arith, e, f, g, z, b))
        (ground (arith, e, f, g, z, b))
]
Clock-step {c0} {n} {d} {c} {rem} a b (past e f) = past (ground (arith, e)) (omega (arith, f))

-- For how many ticks of the wheel an entry lives that is touched at this position, with the timer
-- about to run: the pause may fall into its sixty runs.
abbrev pub lifetime : ℕ → ℕ
lifetime cur = if leb cur 40 then 60 else 160

Clock-lifetime :
    {c0 n d c rem : ℕ}
    → c0 < 100
    → c < 100
    → Clock c0 n d c rem
    → ltb d slot_size ≡ ltb n (lifetime c0)
Clock-lifetime a b (first e f g) = ground (arith, a, b, e, f)
Clock-lifetime a b (pause e f g h i) = ground (arith, a, e, f, g, h)
Clock-lifetime a b (second e f g) = ground (arith, a, b, e, f, g)
Clock-lifetime a b (past e f) = ground (arith, e, f)

-- A worker, `n` ticks of its wheel after the entry `k` was touched.
record Since (k tid c0 p n : ℕ) (s : Worker) : Type 0 where
  d : ℕ
  rem : ℕ
  timed : IsTimed tid rem s.wheel
  clock : Clock c0 n d s.wheel.cur rem
  held : Held k p d s.idle

module _ (k tid c0 p : ℕ) (a : c0 < 100) (b : p < slot_size) where
  held_on :
      (rem d : ℕ) (c : IdleConnections)
      → Held k p d c
      → Held k p (ticked rem d) (if rem == 0 then (Idle.tick c).1 else c)
  unfolding ticked Idle.tick
  held_on rem d c h = elim (ℕ_discrete rem 0) [
    | yes z ↦ rw z (tick-Held k p d c b h)
    | no z ↦ let f : (rem == 0) ≡ false = ground (arith, z) in rw f h
  ]

  expire-Since :
      (n : ℕ) (s : Worker)
      → Since k tid c0 p n s
      → (t : Worker) × (expire tid s ≡ some t) × Since k tid c0 p (suc n) t
  expire-Since n s i =
      let (t, e, x) = expire-Expired tid i.rem s i.timed in
      (
        t,
        e,
        record {
          d = ticked i.rem i.d;
          rem = next_rem s.wheel.cur i.rem;
          timed = x.0;
          clock =
              subst (λ (c : ℕ). Clock c0 (suc n) (ticked i.rem i.d) c (next_rem s.wheel.cur i.rem))
                (sym x.1) (Clock-step a i.timed.valid.in_range i.clock);
          held = subst (Held k p (ticked i.rem i.d)) (sym x.2) (held_on i.rem i.d s.idle i.held);
        },
      )

  add-Since :
      (j n : ℕ) (s : Worker)
      → k ≢ j
      → Since k tid c0 p n s
      → Since k tid c0 p n (record s { idle = Idle.add j s.idle })
  add-Since j n s m i = record {
    d = i.d;
    rem = i.rem;
    timed = i.timed;
    clock = i.clock;
    held = add-Held k j p i.d s.idle (omega (arith, i.held.place)) m i.held;
  }

  run-Since :
      (ops : List Op) (n : ℕ) (s : Worker)
      → Leaves k ops
      → Since k tid c0 p n s
      → (t : Worker) × (run tid ops s ≡ some t) × Since k tid c0 p (count_ticks ops + n) t
  unfolding run count_ticks
  run-Since [] n s l i = (s, refl, subst (λ (m : ℕ). Since k tid c0 p m s) (omega arith) i)
  run-Since (ticks ∷ ops) n s l i =
      let (s', e, i') = expire-Since n s i in
      let (t, f, j) = run-Since ops (suc n) s' l i' in
      (t, rw e f, subst (λ (m : ℕ). Since k tid c0 p m t) (omega arith) j)
  run-Since (adds j ∷ ops) n s l i = run-Since ops n _ l.1 (add-Since j n s l.0 i)
  run-Since (updates j ∷ ops) n s l i =
      rw (update-add j s.idle) (run-Since ops n _ l.1 (add-Since j n s l.0 i))

-- An entry is put into the current slot of a worker whose timer runs in the next tick.
pub record IsReady (tid : ℕ) (s : Worker) : Type 0 where
  pub timed : IsTimed tid 0 s.wheel
  pub idle : IsValid s.idle

-- What happens to an entry that was just touched and then to others.
abbrev pub Outlives : ℕ → ℕ → List Op → Worker → Worker → Type 0
Outlives k tid ops s s' =
    (t : Worker) × (run tid ops s' ≡ some t)
    × (is_alive k t.idle.conns ≡ ltb (count_ticks ops) (lifetime s.wheel.cur))

-- A worker whose timer runs in the next tick of its wheel: whatever connections come and send
-- messages and however its wheel ticks, nothing faults, and an entry that was just added or
-- updated, and is not touched again, is alive if and only if its lifetime has not passed: 60 ticks
-- of the wheel where the wheel stands at 40 or before, and 160 where it stands behind.
pub touch-Outlives :
    (k tid : ℕ) (ops : List Op) (s : Worker)
    → IsReady tid s
    → Leaves k ops
    → Outlives k tid ops s (record s { idle = Idle.add k s.idle })
      × Outlives k tid ops s (record s { idle = Idle.update k s.idle })
touch-Outlives k tid ops s r l = (lives, rw (update-add k s.idle) lives)
  where
    start : Since k tid s.wheel.cur s.idle.cur 0 (record s { idle = Idle.add k s.idle })
    start = record {
      d = 0;
      rem = 0;
      timed = r.timed;
      clock = first refl (omega arith) refl;
      held = touched-Held k s.idle r.idle;
    }

    lives : Outlives k tid ops s (record s { idle = Idle.add k s.idle })
    lives =
        let c0 = s.wheel.cur in
        let a = r.timed.valid.in_range in
        let b = r.idle.inside in
        let (t, e, i) =
          run-Since k tid s.wheel.cur s.idle.cur r.timed.valid.in_range r.idle.inside ops 0 _ l
            start in
        (
          t,
          e,
          Held-alive k s.idle.cur i.d t.idle b i.held
              ∙ Clock-lifetime a i.timed.valid.in_range i.clock
              ∙ ap (λ (m : ℕ). ltb m (lifetime c0)) (omega arith),
        )
