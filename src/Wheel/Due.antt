-- ===== src/Wheel/Due.antt =====
-- TimingWheel::tick (src/reactor/Timer.cpp): a timer in the wheel comes closer by one with each
-- tick, and its callback runs when it is due.
use mathlib.Core.Path.{subst}
use native.Mathlib.Decide.{ℕ_discrete}
use generic_server.Prelude.{
  ℕ, ◌+◌, ◌*◌, ◌-◌, ◌%◌, ◌<◌, ◌≡◌, ◌≢◌, inl, inr, false, Option, none, some, List, [], ◌∷◌, ◌++◌,
  length, arith,
}
use generic_server.Wheel.Defs.{Entry, Wheel, Pass, round_size, slot, add_entry, visit, tick, finish}
use generic_server.Wheel.Visit.{visit_cases}
use generic_server.Wheel.Rule.{
  Any, Any-left, Any-snoc, Any-append_slot, slot-finish_self, slot-finish_other,
}
use generic_server.Wheel.Ready.{IsValid, tick-rule}

-- A live timer with callback `f` that has `n` rounds left.
abbrev pub Holds : ℕ → ℕ → Option Entry → Type 0
Holds f n none = ⊥
Holds f n (some e) = (e.callback ≡ f) × (e.disabled ≡ false) × (e.round ≡ n)

-- Ticks until the slot is gone through.
abbrev pub distance : Wheel → ℕ → ℕ
distance w s = (s + round_size - w.cur) % round_size

-- Some live timer with callback `f` runs in `j` ticks more.
pub data Due (w : Wheel) (f j : ℕ) : Type 0 where
  due :
      (s n : ℕ)
      → s < round_size
      → Any (Holds f n) (slot w s)
      → j ≡ distance w s + round_size * n
      → Due w f j

-- The same in the middle of a pass, wherever the timer is now; or it has run.
data Tracked (f j : ℕ) (p : Pass) : Type 0 where
  ahead : (n : ℕ) → Any (Holds f n) p.todo → j ≡ round_size * n → Tracked f j p
  behind : (n : ℕ) → Any (Holds f n) p.kept → j ≡ round_size + round_size * n → Tracked f j p
  elsewhere :
      (s n : ℕ)
      → s < round_size
      → s ≢ p.wheel.cur
      → Any (Holds f n) (slot p.wheel s)
      → j ≡ distance p.wheel s + round_size * n
      → Tracked f j p
  run : j ≡ 0 → Any (λ g. g ≡ f) p.fired → Tracked f j p

-- The entry at the iterator is not the one that is tracked.
visit_rest : (f j : ℕ) (e : Entry) (p : Pass) → Tracked f j p → Tracked f j (visit (some e) p)
unfolding add_entry
visit_rest f j e p (ahead n h q) =
    visit_cases e p (Tracked f j) (λ d. ahead n h q) (λ d r. ahead n h q) (λ d r k. ahead n h q)
      (λ d r k s. ahead n (Any-left (Holds f n) p.todo _ h) q) (λ d r k s. ahead n h q)
visit_rest f j e p (behind n h q) =
    visit_cases e p (Tracked f j) (λ d. behind n h q)
      (λ d r. behind n (Any-left (Holds f n) p.kept _ h) q) (λ d r k. behind n h q)
      (λ d r k s. behind n h q) (λ d r k s. behind n h q)
visit_rest f j e p (elsewhere s n l o h q) =
    visit_cases e p (Tracked f j) (λ d. elsewhere s n l o h q) (λ d r. elsewhere s n l o h q)
      (λ d r k. elsewhere s n l o h q) (λ d r k i. elsewhere s n l o h q)
      (λ d r k i. elsewhere s n l o (Any-append_slot (Holds f n) p.wheel.slots _ s _ h) q)
visit_rest f j e p (run z h) =
    let more : Any (λ g. g ≡ f) (p.fired ++ e.callback ∷ []) = Any-left (λ g. g ≡ f) p.fired _ h in
    visit_cases e p (Tracked f j) (λ d. run z h) (λ d r. run z h) (λ d r k. run z more)
      (λ d r k s. run z more) (λ d r k s. run z more)

-- It is: it stays with a round less, or it runs.
visit_it :
    (f j n : ℕ) (e : Entry) (p : Pass)
    → Holds f n (some e)
    → j ≡ round_size * n
    → Tracked f j (visit (some e) p)
visit_it f j n e p h q =
    visit_cases e p (Tracked f j) (λ d. cc)
      (λ d r.
        behind (n - 1) (Any-snoc (Holds f (n - 1)) p.kept _ (h.0, h.1, omega arith))
          (omega (arith, h.2)))
      (λ d r k. run (omega (arith, h.2)) it_ran) (λ d r k s. run (omega (arith, h.2)) it_ran)
      (λ d r k s. run (omega (arith, h.2)) it_ran)
  where
    it_ran : Any (λ g. g ≡ f) (p.fired ++ e.callback ∷ [])
    it_ran = Any-snoc (λ g. g ≡ f) p.fired e.callback h.0

visit-Tracked :
    (f j : ℕ) (x : Option Entry) (p : Pass)
    → Tracked f j (record p { todo = x ∷ p.todo })
    → Tracked f j (visit x p)
unfolding visit
visit-Tracked f j none p (ahead n (inl h) q) = absurd h
visit-Tracked f j none p (ahead n (inr h) q) = ahead n h q
visit-Tracked f j none p (behind n h q) = behind n h q
visit-Tracked f j none p (elsewhere s n l o h q) = elsewhere s n l o h q
visit-Tracked f j none p (run z h) = run z h
visit-Tracked f j (some e) p (ahead n (inl h) q) = visit_it f j n e p h q
visit-Tracked f j (some e) p (ahead n (inr h) q) = visit_rest f j e p (ahead n h q)
visit-Tracked f j (some e) p (behind n h q) = visit_rest f j e p (behind n h q)
visit-Tracked f j (some e) p (elsewhere s n l o h q) = visit_rest f j e p (elsewhere s n l o h q)
visit-Tracked f j (some e) p (run z h) = visit_rest f j e p (run z h)

-- What a tick makes of a timer due in `j` ticks: it runs now, or it is due in `j - 1`.
pub data Closer (f j : ℕ) (w : Wheel) (fired : List ℕ) : Type 0 where
  ran_now : j ≡ 0 → Any (λ g. g ≡ f) fired → Closer f j w fired
  later : 0 < j → Due w f (j - 1) → Closer f j w fired

finish-Closer :
    (f j : ℕ) (q : Pass)
    → q.wheel.cur < round_size
    → length q.wheel.slots ≡ round_size
    → Tracked f j (record q { todo = [] })
    → Closer f j (finish q).0 (finish q).1
finish-Closer f j q c l (ahead n h e) = absurd h
finish-Closer f j q c l (behind n h e) =
    later (omega arith)
      (due q.wheel.cur n c (rw (slot-finish_self q (omega arith)) h) (omega arith))
finish-Closer f j q c l (elsewhere s n i o h e) =
    later (omega arith) (due s n i (rw (slot-finish_other q s o) h) (omega arith))
finish-Closer f j q c l (run z h) = ran_now z h

start-Tracked :
    (f j : ℕ) (w : Wheel)
    → w.cur < round_size
    → Due w f j
    → Tracked f j (record { wheel = w; kept = []; todo = slot w w.cur; fired = [] })
start-Tracked f j w c (due s n l h e) = elim (ℕ_discrete s w.cur) [
  | yes same ↦ ahead n (subst (λ k. Any (Holds f n) (slot w k)) same h) (omega arith)
  | no other ↦ elsewhere s n l other h e
]

-- A tick of a valid wheel brings every timer in it closer by one, or runs it if it is due.
pub tick-Closer :
    (f j : ℕ) (w w' : Wheel) (fired : List ℕ)
    → IsValid w
    → Due w f j
    → tick w ≡ some (w', fired)
    → Closer f j w' fired
tick-Closer f j w w' fired v d e =
    let (q, g, t, same) =
      tick-rule (Tracked f j) w w' fired v (λ x p g t. visit-Tracked f j x p t)
        (start-Tracked f j w v.in_range d) e in
    subst (λ (r : Wheel × List ℕ). Closer f j r.0 r.1) same
      (finish-Closer f j q g.valid.in_range g.valid.all_slots t)
