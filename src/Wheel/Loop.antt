-- ===== src/Wheel/Loop.antt =====
-- TimingWheel::tick (src/reactor/Timer.cpp): when the pass over a slot ends, and when it does not.
use mathlib.Core.Path.{subst}
use generic_server.Prelude.{
  ℕ, zero, suc, ◌+◌, ◌*◌, ◌/◌, ◌%◌, ◌≤◌, ◌<◌, ◌≡◌, refl, true, false, Option, none, some, List, [],
  ◌∷◌, ◌++◌, length, ltb, arith, if◌then◌else◌, sym, append_assoc,
}
use generic_server.Wheel.Visit.{visit_cases, visit_same}
use generic_server.Wheel.Defs.{
  Entry, Wheel, Pass, TimerList, round_size, slot, placed, add_entry, visit, tick_loop, tick_turns,
  tick, finish,
}

-- A repeating timer has at least one interval to wait.
abbrev pub Waits : ℕ → Option Entry → Type 0
Waits interval none = Unit {0}
Waits interval (some e) = e.repeat ≡ true → interval ≤ e.timeoutms

abbrev pub All {ℓ κ} : {A : Type ℓ} → (A → Type κ) → List A → Type κ
All P [] = Unit
All P (x ∷ xs) = P x × All P xs

pub All-snoc {ℓ κ} :
    {A : Type ℓ} (P : A → Type κ) (xs : List A) (x : A) → All P xs → P x → All P (xs ++ x ∷ [])
All-snoc P [] x h p = (p, tt)
All-snoc P (y ∷ xs) x h p = (h.0, All-snoc P xs x h.1 p)

pub quotient_pos : (t i : ℕ) → 0 < i → i ≤ t → 1 ≤ t / i
quotient_pos t i p h = grind arith

-- A repeating timer that comes back to the slot being gone through has a round left.
pub comes_back : (c k : ℕ) → 1 ≤ k → (c + k) % 100 ≡ c → 1 ≤ (c + k) / 100
comes_back c k h e = omega arith

weight : Option Entry → ℕ
weight none = 1
weight (some e) = if ltb 0 e.round then 1 else 2

cost : TimerList → ℕ
cost [] = 0
cost (x ∷ xs) = weight x + cost xs

cost-snoc : (xs : TimerList) (x : Option Entry) → cost (xs ++ x ∷ []) ≡ cost xs + weight x
unfolding cost
cost-snoc [] x = omega arith
cost-snoc (y ∷ xs) x = omega (arith, cost-snoc xs x)

cost-le : (xs : TimerList) → cost xs ≤ 2 * length xs
unfolding cost weight
cost-le [] = omega arith
cost-le (none ∷ xs) = omega (arith, cost-le xs)
cost-le (some e ∷ xs) = ground (arith, cost-le xs)

-- What a turn keeps: the position and interval of the wheel, and that repeating timers wait.
pub record Sound (p : Pass) : Type 0 where
  pub in_range : p.wheel.cur < round_size
  pub positive : 0 < p.wheel.interval
  pub wait : All (Waits p.wheel.interval) p.todo

-- What a turn keeps when an entry of weight `n` is gone through.
abbrev Turn : Pass → ℕ → Pass → Type 0
Turn p n q = Sound q × (cost q.todo < n + cost p.todo)

visit-Turn :
    (x : Option Entry) (p : Pass)
    → Sound p
    → Waits p.wheel.interval x
    → Turn p (weight x) (visit x p)
unfolding visit weight
visit-Turn none p s h = (s, omega arith)
visit-Turn (some e) p s h =
    visit_cases e p (Turn p (weight (some e))) (λ d. (s, ground arith))
      (λ d r.
        (record { in_range = s.in_range; positive = s.positive; wait = s.wait }, ground arith))
      (λ d r q.
        (record { in_range = s.in_range; positive = s.positive; wait = s.wait }, ground arith))
      (λ d r q same. (
        record {
          in_range = s.in_range;
          positive = s.positive;
          wait = All-snoc (Waits p.wheel.interval) p.todo (some (placed p.wheel e)) s.wait h;
        },
        ground (
          arith,
          cost-snoc p.todo (some (placed p.wheel e)),
          comes_back p.wheel.cur (e.timeoutms / p.wheel.interval)
              (quotient_pos e.timeoutms p.wheel.interval s.positive (h q)) same,
        ),
      ))
      (λ d r q other.
        unfold add_entry in
        (record { in_range = s.in_range; positive = s.positive; wait = s.wait }, ground arith))

-- A slot whose repeating timers wait at least one interval is gone through in the turns given.
loop_total :
    (turns : ℕ) (w : Wheel) (kept todo : TimerList) (fired : List ℕ)
    → Sound (record { wheel = w; kept = kept; todo = todo; fired = fired })
    → cost todo < turns
    → (p : Pass) × (tick_loop turns w kept todo fired ≡ some p)
unfolding tick_loop cost
loop_total zero w kept todo fired s h = absurd (omega arith)
loop_total (suc turns) w kept [] fired s h = (_, refl)
loop_total (suc turns) w kept (x ∷ rest) fired s h =
    let p : Pass = record { wheel = w; kept = kept; todo = rest; fired = fired } in
    let (t, less) =
      visit-Turn x p (record { in_range = s.in_range; positive = s.positive; wait = s.wait.1 })
        s.wait.0 in
    loop_total turns (visit x p).wheel (visit x p).kept (visit x p).todo (visit x p).fired t
      (omega arith)

-- The tick ends.
abbrev pub Ends : Wheel → Type 0
Ends w = (w' : Wheel) × (fired : List ℕ) × (tick w ≡ some (w', fired))

-- TimingWheel::tick returns, whatever the slot holds, if its repeating timers wait at least one
-- interval of the wheel.
pub tick_returns :
    (w : Wheel)
    → w.cur < round_size
    → 0 < w.interval
    → All (Waits w.interval) (slot w w.cur)
    → Ends w
unfolding tick
tick_returns w c i h =
    let l : TimerList = slot w w.cur in
    let (p, e) =
      loop_total (2 * length l + 1) w [] l [] (record { in_range = c; positive = i; wait = h })
        (omega (arith, cost-le l)) in
    ((finish p).0, (finish p).1, rw e)

-- Such a timer, due now: it repeats, and its period is shorter than the interval.
pub record TooFast (w : Wheel) (e : Entry) : Type 0 where
  pub again : e.repeat ≡ true
  pub live : e.disabled ≡ false
  pub due : e.round ≡ 0
  pub short : e.timeoutms / w.interval ≡ 0

loop_stalls :
    (turns : ℕ) (w : Wheel) (e : Entry) (before after kept : TimerList) (fired : List ℕ)
    → w.cur < round_size
    → TooFast w e
    → tick_loop turns w kept (before ++ some e ∷ after) fired ≡ none
unfolding tick_loop visit add_entry
loop_stalls zero w e before after kept fired c s = refl
loop_stalls (suc turns) w e [] after kept fired c s =
    let p : Pass = record { wheel = w; kept = kept; todo = after; fired = fired } in
    subst (λ (q : Pass). tick_loop turns q.wheel q.kept q.todo q.fired ≡ none)
      (sym (visit_same e p s.live s.due s.again (ground (arith, s))))
      (loop_stalls turns w (placed w e) after [] kept (fired ++ e.callback ∷ []) c
        (record { again = s.again; live = s.live; due = ground (arith, s); short = s.short }))
loop_stalls (suc turns) w e (none ∷ before) after kept fired c s =
    loop_stalls turns w e before after kept fired c s
loop_stalls (suc turns) w e (some x ∷ before) after kept fired c s =
    let rest : TimerList = before ++ some e ∷ after in
    let p : Pass = record { wheel = w; kept = kept; todo = rest; fired = fired } in
    visit_cases x p (λ (q : Pass). tick_loop turns q.wheel q.kept q.todo q.fired ≡ none)
      (λ d. loop_stalls turns w e before after kept fired c s)
      (λ d r. loop_stalls turns w e before after _ fired c s)
      (λ d r q. loop_stalls turns w e before after kept _ c s)
      (λ d r q same.
        rw (append_assoc before (some e ∷ after) (some (placed w x) ∷ []))
          (loop_stalls turns w e before (after ++ some (placed w x) ∷ []) kept _ c s))
      (λ d r q other.
        loop_stalls turns (add_entry x w) e before after kept _ c
          (record { again = s.again; live = s.live; due = s.due; short = s.short }))

-- A repeating timer with a period shorter than the interval is put back into the list that is being
-- gone through, due at once: `tick` does not return, however many turns it is given.
pub tick_stalls :
    (turns : ℕ) (w : Wheel) (e : Entry) (before after : TimerList)
    → w.cur < round_size
    → slot w w.cur ≡ before ++ some e ∷ after
    → TooFast w e
    → tick_turns turns w ≡ none
tick_stalls turns w e before after c l s = rw (l, loop_stalls turns w e before after [] [] c s)
