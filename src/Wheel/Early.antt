-- ===== src/Wheel/Early.antt =====
-- TimingWheel::tick (src/reactor/Timer.cpp): no timer runs before it is due.
use mathlib.Core.Path.{subst}
use native.Mathlib.Decide.{ℕ_discrete}
use generic_server.Prelude.{
  ℕ, ◌*◌, ◌-◌, ◌%◌, ◌≤◌, ◌<◌, ◌≡◌, ◌≢◌, Option, none, some, List, [], ◌∷◌, ◌++◌, length, arith,
}
use generic_server.Wheel.Defs.{
  Entry, Wheel, Pass, TimerList, round_size, slot, target, placed, add_entry, visit, tick, finish,
}
use generic_server.Wheel.Visit.{visit_cases}
use generic_server.Wheel.Loop.{All, All-snoc}
use generic_server.Wheel.Rule.{All-append_slot, slot-finish_self, slot-finish_other}
use generic_server.Wheel.Ready.{IsValid, tick-rule}
use generic_server.Wheel.Due.{distance}

-- The timer has another callback, or rounds left that make up `m` ticks.
abbrev pub AtLeast : ℕ → ℕ → Option Entry → Type 0
AtLeast f m none = Unit {0}
AtLeast f m (some e) = e.callback ≡ f → m ≤ round_size * e.round

-- No timer with callback `f` runs in fewer than `j` ticks more.
abbrev pub NotBefore : Wheel → ℕ → ℕ → Type 0
NotBefore w f j = (s : ℕ) → s < round_size → All (AtLeast f (j - distance w s)) (slot w s)

-- The same in the middle of a pass that has not run it.
record Waiting (f j : ℕ) (p : Pass) : Type 0 where
  todo : All (AtLeast f j) p.todo
  kept : All (AtLeast f (j - round_size)) p.kept
  elsewhere :
      (s : ℕ)
      → s < round_size
      → s ≢ p.wheel.cur
      → All (AtLeast f (j - distance p.wheel s)) (slot p.wheel s)
  silent : All (λ g. g ≢ f) p.fired

module _ (f j : ℕ) (positive : 0 < j) where
  visit-Waiting :
      (x : Option Entry) (p : Pass)
      → Waiting f j (record p { todo = x ∷ p.todo })
      → Waiting f j (visit x p)
  unfolding visit add_entry
  visit-Waiting none p w = record {
    todo = w.todo.1;
    kept = w.kept;
    elsewhere = w.elsewhere;
    silent = w.silent;
  }
  visit-Waiting (some e) p w =
      visit_cases e p (Waiting f j)
        (λ d. record { todo = w.todo.1; kept = w.kept; elsewhere = w.elsewhere; silent = w.silent })
        (λ d r. record {
          todo = w.todo.1;
          kept =
              All-snoc (AtLeast f (j - round_size)) p.kept _ w.kept
                (λ h. omega (arith, w.todo.0 h));
          elsewhere = w.elsewhere;
          silent = w.silent;
        })
        (λ d r k. record {
          todo = w.todo.1;
          kept = w.kept;
          elsewhere = w.elsewhere;
          silent = more r;
        })
        (λ d r k s. record {
          todo =
              All-snoc (AtLeast f j) p.todo (some (placed p.wheel e)) w.todo.1
                (λ h. absurd (another r h));
          kept = w.kept;
          elsewhere = w.elsewhere;
          silent = more r;
        })
        (λ d r k i. record {
          todo = w.todo.1;
          kept = w.kept;
          elsewhere = λ s l o.
              All-append_slot (AtLeast f (j - distance p.wheel s)) p.wheel.slots
                (target p.wheel e % round_size) s (some (placed p.wheel e)) (w.elsewhere s l o)
                (λ t h. absurd (another r h));
          silent = more r;
        })
    where
      another : e.round ≡ 0 → e.callback ≢ f
      another r h = omega (arith, w.todo.0 h)

      more : e.round ≡ 0 → All (λ g. g ≢ f) (p.fired ++ e.callback ∷ [])
      more r = All-snoc (λ g. g ≢ f) p.fired e.callback w.silent (another r)

AtLeast-mono : (f m n : ℕ) (l : TimerList) → m ≤ n → All (AtLeast f n) l → All (AtLeast f m) l
AtLeast-mono f m n [] h a = tt
AtLeast-mono f m n (none ∷ l) h a = (tt, AtLeast-mono f m n l h a.1)
AtLeast-mono f m n (some e ∷ l) h a = ((λ c. omega (arith, a.0 c)), AtLeast-mono f m n l h a.1)

finish-NotBefore :
    (f j : ℕ) (q : Pass)
    → q.wheel.cur < round_size
    → length q.wheel.slots ≡ round_size
    → Waiting f j (record q { todo = [] })
    → NotBefore (finish q).0 f (j - 1)
finish-NotBefore f j q c l w s i = elim (ℕ_discrete s q.wheel.cur) [
  | yes e ↦
      rw (e, slot-finish_self q (omega arith))
        (AtLeast-mono f _ (j - round_size) q.kept (omega arith) w.kept)
  | no o ↦
      rw (slot-finish_other q s o) (
        AtLeast-mono f _ (j - distance q.wheel s) (slot q.wheel s) (omega arith)
          (w.elsewhere s i o))
]

-- A tick of a valid wheel does not run a timer that is not due, and brings it closer by one only.
pub tick-NotBefore :
    (f j : ℕ) (w w' : Wheel) (fired : List ℕ)
    → 0 < j
    → IsValid w
    → NotBefore w f j
    → tick w ≡ some (w', fired)
    → All (λ g. g ≢ f) fired × NotBefore w' f (j - 1)
tick-NotBefore f j w w' fired p v n e =
    let (q, g, t, same) =
      tick-rule (Waiting f j) w w' fired v (λ x q g t. visit-Waiting f j p x q t)
        (record { todo = first; kept = tt; elsewhere = λ s l o. n s l; silent = tt }) e in
    subst (λ (r : Wheel × List ℕ). All (λ g. g ≢ f) r.1 × NotBefore r.0 f (j - 1)) same
      (t.silent, finish-NotBefore f j q g.valid.in_range g.valid.all_slots t)
  where
    first : All (AtLeast f j) (slot w w.cur)
    first =
        AtLeast-mono f j (j - distance w w.cur) (slot w w.cur) (omega (arith, v.in_range))
          (n w.cur v.in_range)
