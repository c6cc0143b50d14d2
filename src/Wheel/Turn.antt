-- ===== src/Wheel/Turn.antt =====
-- TimingWheel::tick (src/reactor/Timer.cpp): what one turn does to the number of timers that wait.
use generic_server.Prelude.{
  ℕ, ◌+◌, ◌*◌, ◌-◌, ◌/◌, ◌%◌, ◌<◌, ◌≤◌, ◌≡◌, ◌≢◌, Option, none, some, ◌∷◌, arith, length,
}
use generic_server.Wheel.Defs.{Entry, Pass, round_size, slot, placed, add_entry, visit}
use generic_server.Wheel.Visit.{visit_cases}
use generic_server.Wheel.Loop.{Waits, quotient_pos, comes_back}
use generic_server.Wheel.Kind.{
  Kind, one, count, again, count-snoc, times-count, times-snoc, count-add_entry, one-disabled,
  one-round, one-waited, again-once, again-other, again-same,
}

-- What a pass needs to know of the wheel and of the timer at the iterator.
abbrev pub Ready : Option Entry → Pass → Type 0
Ready x p =
    (p.wheel.cur < round_size)
    × (0 < p.wheel.interval)
    × (length p.wheel.slots ≡ round_size)
    × Waits p.wheel.interval x

module _ (q : Kind) (j : ℕ) where
  abbrev later : Pass → ℕ
  later p = again q p.wheel.cur p.wheel.interval j * count q 0 p.todo

  -- How many timers of the kind run in the tick after `j` more ticks, in the middle of a pass over
  -- the slot that holds them, or over another.
  abbrev pub here : Pass → ℕ
  here p = count q (j / round_size) p.kept + count q (j / round_size + 1) p.todo + later p

  abbrev pub there : Pass → ℕ
  there p = count q (j / round_size) (slot p.wheel ((p.wheel.cur + 1 + j) % round_size)) + later p

  module _ (e : Entry) (p : Pass) where
    a : ℕ
    a = again q p.wheel.cur p.wheel.interval j

    none_lost : one q 0 (some e) ≡ 0 → a * one q 0 (some e) ≡ 0
    none_lost z = rw z (omega arith)

    none_back : 1 ≤ (placed p.wheel e).round → a * one q 0 (some (placed p.wheel e)) ≡ 0
    none_back h = rw (one-round q (placed p.wheel e) 0 (omega (arith, h))) (omega arith)

  pub visit-here :
      (n : ℕ)
      → j % round_size ≡ 99
      → (x : Option Entry) (p : Pass) → Ready x p
      → here (record p { todo = x ∷ p.todo }) ≡ n
      → here (visit x p) ≡ n
  unfolding visit count one add_entry a
  visit-here n z none p g h =
      omega (arith, h, times-count q (again q p.wheel.cur p.wheel.interval j) 0 none p.todo)
  visit-here n z (some e) p (l, i, b, w) h =
      let c = p.wheel.cur in
      let k = e.timeoutms / p.wheel.interval in
      let h' = times-count q (a e p) 0 (some e) p.todo in
      visit_cases e p (λ (r : Pass). here r ≡ n)
        (λ d. omega (
          arith,
          h,
          h',
          one-disabled q e (j / round_size + 1) d,
          none_lost e p (one-disabled q e 0 d),
        ))
        (λ d r. omega (
          arith,
          h,
          h',
          one-waited q e (j / round_size) r,
          none_lost e p (one-round q e 0 (omega arith)),
          count-snoc q (j / round_size) p.kept (some (record e { round = e.round - 1 })),
        ))
        (λ d r k. omega (
          arith,
          h,
          h',
          one-round q e (j / round_size + 1) (omega arith),
          again-once q e c p.wheel.interval j k,
        ))
        (λ d r k s.
          let f = quotient_pos e.timeoutms p.wheel.interval i (w k) in
          ground (
            arith,
            z,
            h,
            h',
            one-round q e (j / round_size + 1) (omega arith),
            again-same q e c p.wheel.interval j r k l s f,
            times-snoc q (a e p) 0 (some (placed p.wheel e)) p.todo,
            count-snoc q (j / round_size + 1) p.todo (some (placed p.wheel e)),
            none_back e p (comes_back c (e.timeoutms / p.wheel.interval) f s),
          ))
        (λ d r k s. ground (
          arith,
          z,
          h,
          h',
          s,
          one-round q e (j / round_size + 1) (omega arith),
          again-other q e c p.wheel.interval j r k l s,
        ))

  pub visit-there :
      (n : ℕ)
      → j % round_size ≢ 99
      → (x : Option Entry) (p : Pass) → Ready x p
      → there (record p { todo = x ∷ p.todo }) ≡ n
      → there (visit x p) ≡ n
  unfolding visit count one add_entry a
  visit-there n z none p g h =
      omega (arith, h, times-count q (again q p.wheel.cur p.wheel.interval j) 0 none p.todo)
  visit-there n z (some e) p (l, i, b, w) h =
      let c = p.wheel.cur in
      let k = e.timeoutms / p.wheel.interval in
      let h' = times-count q (a e p) 0 (some e) p.todo in
      visit_cases e p (λ (r : Pass). there r ≡ n)
        (λ d. omega (arith, h, h', none_lost e p (one-disabled q e 0 d)))
        (λ d r. omega (arith, h, h', none_lost e p (one-round q e 0 (omega arith))))
        (λ d r k. omega (arith, h, h', again-once q e c p.wheel.interval j k))
        (λ d r k s.
          let f = quotient_pos e.timeoutms p.wheel.interval i (w k) in
          ground (
            arith,
            z,
            h,
            h',
            again-same q e c p.wheel.interval j r k l s f,
            times-snoc q (a e p) 0 (some (placed p.wheel e)) p.todo,
            none_back e p (comes_back c (e.timeoutms / p.wheel.interval) f s),
          ))
        (λ d r k s. ground (
          arith,
          h,
          h',
          again-other q e c p.wheel.interval j r k l s,
          count-add_entry q (j / round_size) e p.wheel ((c + 1 + j) % round_size) b,
        ))
