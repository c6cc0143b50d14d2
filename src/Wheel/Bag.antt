-- ===== src/Wheel/Bag.antt =====
-- src/reactor/Timer.cpp: the wheel is a bag of countdowns.
use mathlib.Core.Path.{subst}
use native.Mathlib.Decide.{ℕ_discrete}
use generic_server.Prelude.{
  ℕ, ◌+◌, ◌*◌, ◌/◌, ◌%◌, ◌<◌, ◌≡◌, ◌≢◌, refl, sym, ap, ap₂, ◌∙◌, inl, inr, Bool-cases, Option, some,
  List, [], ◌∷◌, ◌++◌, arith, ◌==◌, if◌then◌else◌, append-nil,
}
use generic_server.Wheel.Defs.{Entry, Wheel, Pass, round_size, slot, add, tick, finish}
use generic_server.Wheel.Loop.{Waits, tick_returns}
use generic_server.Wheel.Rule.{slot-finish_self, slot-finish_other}
use generic_server.Wheel.Ready.{IsValid, Going, tick-rule, MovesOn, tick-IsValid}
use generic_server.Wheel.Fires.{wait_ticks}
use generic_server.Wheel.Kind.{
  Kind, is_kind, one, count, waiting, again, count-add_entry, kind_round,
}
use generic_server.Wheel.Turn.{Ready, here, there, visit-here, visit-there}
use generic_server.Wheel.DueNow.{due_now, visit-due_now}

module _ (w : Wheel) (v : IsValid w) where
  ready :
      (x : Option Entry) (p : Pass)
      → Going w.interval w.cur (record p { todo = x ∷ p.todo })
      → Ready x p
  ready x p g = (
    g.valid.in_range,
    g.valid.positive,
    g.valid.all_slots,
    subst (λ k. Waits k x) (sym g.same_interval) g.todo.0,
  )

  abbrev tick_start : Pass
  tick_start = record { wheel = w; kept = []; todo = slot w w.cur; fired = [] }

  module _ (q : Kind) (j : ℕ) where
    -- What the pass starts with.
    now : waiting q 0 w ≡ count q 0 (slot w w.cur)
    now = ap (λ (s : ℕ). count q 0 (slot w s)) (omega (arith, v))

    before :
        (n s : ℕ)
        → (j + 1) / round_size ≡ n
        → (w.cur + (j + 1)) % round_size ≡ s
        → waiting q (j + 1) w ≡ count q n (slot w s)
    before n s e f = ap₂ (λ (n s : ℕ). count q n (slot w s)) e f

    before_here :
        j % round_size ≡ 99
        → here q j tick_start ≡ waiting q (j + 1) w + again q w.cur w.interval j * waiting q 0 w
    unfolding count
    before_here z =
        rw (now, before (j / round_size + 1) w.cur (omega (arith, z)) (omega (arith, z, v)))
          (omega arith)

    before_there :
        j % round_size ≢ 99
        → there q j tick_start ≡ waiting q (j + 1) w + again q w.cur w.interval j * waiting q 0 w
    before_there z =
        rw
          (
            now,
            before (j / round_size) ((w.cur + 1 + j) % round_size) (omega (arith, z))
                (omega (arith, z, v)),
          )
          refl

    -- What it ends with.
    module _ (p : Pass) (g : Going w.interval w.cur (record p { todo = [] })) where
      after :
          (s : ℕ)
          → (p.wheel.cur + 1 + j) % round_size ≡ s
          → waiting q j (finish p).0 ≡ count q (j / round_size) (slot (finish p).0 s)
      after s e =
          ap (λ (s : ℕ). count q (j / round_size) (slot (finish p).0 s))
            (omega (arith, e, g.valid.in_range))

      after_here :
          j % round_size ≡ 99 → waiting q j (finish p).0 ≡ here q j (record p { todo = [] })
      unfolding count
      after_here z =
          after p.wheel.cur (omega (arith, z, g.valid.in_range))
          ∙ ap (count q (j / round_size)) (slot-finish_self p (omega (arith, g.valid)))
          ∙ omega arith

      after_there :
          j % round_size ≢ 99 → waiting q j (finish p).0 ≡ there q j (record p { todo = [] })
      unfolding count
      after_there z =
          let s : ℕ = (p.wheel.cur + 1 + j) % round_size in
          after s refl
          ∙ ap (count q (j / round_size))
              (slot-finish_other p s (λ e. omega (arith, z, e, g.valid.in_range)))
          ∙ omega arith

    counted :
        (w' : Wheel) (fired : List ℕ)
        → tick w ≡ some (w', fired)
        → waiting q j w' ≡ waiting q (j + 1) w + again q w.cur w.interval j * waiting q 0 w
    counted w' fired e = elim (ℕ_discrete (j % round_size) 99) [
      | yes z ↦
          let (p, g, h, f) =
            tick-rule (λ (p : Pass). here q j p ≡ here q j tick_start) w w' fired v
              (λ x p g h. visit-here q j (here q j tick_start) z x p (ready x p g) h) refl e in
          ap (λ (r : Wheel × List ℕ). waiting q j r.0) (sym f)
          ∙ after_here p g z
          ∙ h
          ∙ before_here z
      | no z ↦
          let (p, g, h, f) =
            tick-rule (λ (p : Pass). there q j p ≡ there q j tick_start) w w' fired v
              (λ x p g h. visit-there q j (there q j tick_start) z x p (ready x p g) h) refl e in
          ap (λ (r : Wheel × List ℕ). waiting q j r.0) (sym f)
          ∙ after_there p g z
          ∙ h
          ∙ before_there z
    ]

  fired_now :
      (w' : Wheel) (fired : List ℕ) → tick w ≡ some (w', fired) → fired ≡ due_now (slot w w.cur)
  unfolding due_now
  fired_now w' fired e =
      let (p, g, h, f) =
        tick-rule (λ (p : Pass). p.fired ++ due_now p.todo ≡ due_now (slot w w.cur)) w w' fired v
          (λ x p g h. visit-due_now (due_now (slot w w.cur)) x p (ready x p g) h) refl e in
      sym (ap (λ (r : Wheel × List ℕ). r.1) f) ∙ sym (append-nil p.fired) ∙ h

-- A tick as the bag sees it: the timers with no tick to wait run, in the order of their slot, the
-- others wait one tick less, and the repeating ones wait anew.
abbrev pub Ticked : Wheel → Wheel → List ℕ → Type 0
Ticked w w' fired =
    MovesOn w w'
    × (fired ≡ due_now (slot w w.cur))
    × ((q : Kind) (j : ℕ)
        → waiting q j w' ≡ waiting q (j + 1) w + again q w.cur w.interval j * waiting q 0 w)

-- On a valid wheel tick returns. The callbacks that ran are those of the live timers of the slot
-- with no round left, in order; and for every kind of timer, as many as waited for j + 1 ticks
-- before wait for j now, besides those that ran, repeat, and have j more ticks to wait: their
-- number of intervals less one, or a round more if the position comes round before.
pub tick-Ticked :
    (w : Wheel)
    → IsValid w
    → (w' : Wheel) × (fired : List ℕ) × (tick w ≡ some (w', fired)) × Ticked w w' fired
tick-Ticked w v =
    let (w', fired, e) = tick_returns w v.in_range v.positive (v.wait w.cur) in
    (
      w',
      fired,
      e,
      (tick-IsValid w w' fired v e, fired_now w v w' fired e, λ q j. counted w v q j w' fired e),
    )

hits_new :
    (c k j : ℕ)
    → c < 100
    → ◌≡◌ {A = ℕ}
        (if (c + k) % 100 == (c + j) % 100 then (if (c + k) / 100 == j / 100 then 1 else 0) else 0)
        (if j == wait_ticks c k then 1 else 0)
hits_new c k j h = ground (arith, h)

-- add puts one timer of the entry's kind into a valid wheel, if the entry is live, to run after its
-- number of intervals, or a round more if the position comes round before; the other timers wait as
-- before.
pub add-waiting :
    (q : Kind) (j : ℕ) (e : Entry) (w : Wheel)
    → IsValid w
    → waiting q j (add e w)
      ≡ waiting q j w
        + (if is_kind q e
            then (if j == wait_ticks w.cur (e.timeoutms / w.interval) then 1 else 0)
            else 0)
unfolding add one
add-waiting q j e w v =
    let k : ℕ = e.timeoutms / w.interval in
    count-add_entry q (j / round_size) e w ((w.cur + j) % round_size) v.all_slots
    ∙ rw (kind_round q e ((w.cur + k) / round_size)) (elim (Bool-cases (is_kind q e)) [
      | inl h ↦ rw h (omega (arith, hits_new w.cur k j v.in_range))
      | inr h ↦ rw h (ground arith)
    ])
