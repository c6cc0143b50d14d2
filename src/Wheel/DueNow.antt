-- ===== src/Wheel/DueNow.antt =====
-- TimingWheel::tick (src/reactor/Timer.cpp): the callbacks that a pass over a slot runs.
use generic_server.Prelude.{
  ℕ, ◌/◌, ◌<◌, ◌≡◌, ◌≢◌, refl, sym, ap, ◌∙◌, true, false, Option, none, some, List, [], ◌∷◌, ◌++◌,
  arith, ◌==◌, if◌then◌else◌, append_assoc,
}
use generic_server.Wheel.Defs.{Entry, Pass, TimerList, placed, add_entry, visit}
use generic_server.Wheel.Visit.{visit_cases}
use generic_server.Wheel.Loop.{quotient_pos, comes_back}
use generic_server.Wheel.Turn.{Ready}

-- The callbacks of the live timers of a slot that have no round left, in their order.
unfoldable pub due_now : TimerList → List ℕ
due_now [] = []
due_now (none ∷ l) = due_now l
due_now (some e ∷ l) =
    let rest : List ℕ = due_now l in
    if e.disabled then rest else if e.round == 0 then e.callback ∷ rest else rest

due_now-snoc : (l : TimerList) (e : Entry) → e.round ≢ 0 → due_now (l ++ some e ∷ []) ≡ due_now l
unfolding due_now
due_now-snoc [] e h = ground (arith, h)
due_now-snoc (none ∷ l) e h = due_now-snoc l e h
due_now-snoc (some x ∷ l) e h = rw (due_now-snoc l e h) refl

pub due_now-none : (l : TimerList) → due_now (none ∷ l) ≡ due_now l
unfolding due_now
due_now-none l = refl

pub due_now-disabled :
    (e : Entry) (l : TimerList) → e.disabled ≡ true → due_now (some e ∷ l) ≡ due_now l
unfolding due_now
due_now-disabled e l d = rw d refl

pub due_now-waits : (e : Entry) (l : TimerList) → 0 < e.round → due_now (some e ∷ l) ≡ due_now l
unfolding due_now
due_now-waits e l h = ground (arith, h)

pub due_now-runs :
    (e : Entry) (l : TimerList)
    → e.disabled ≡ false
    → e.round ≡ 0
    → due_now (some e ∷ l) ≡ e.callback ∷ due_now l
unfolding due_now
due_now-runs e l d r = rw (d, r) refl

pub visit-due_now :
    (fs : List ℕ) (x : Option Entry) (p : Pass)
    → Ready x p
    → p.fired ++ due_now (x ∷ p.todo) ≡ fs
    → (visit x p).fired ++ due_now (visit x p).todo ≡ fs
unfolding visit due_now add_entry
visit-due_now fs none p g h = h
visit-due_now fs (some e) p (l, i, b, w) h =
    visit_cases e p (λ (r : Pass). r.fired ++ due_now r.todo ≡ fs) (λ d. rw (← h, d) refl)
      (λ d r. sym (ap (λ (l : List ℕ). p.fired ++ l) (due_now-waits e p.todo r)) ∙ h)
      (λ d r k. append_assoc p.fired (e.callback ∷ []) (due_now p.todo) ∙ runs d r ∙ h)
      (λ d r k s.
        ap (λ (l : List ℕ). (p.fired ++ e.callback ∷ []) ++ l)
          (due_now-snoc p.todo (placed p.wheel e) (λ z. omega (
            arith,
            z,
            comes_back p.wheel.cur (e.timeoutms / p.wheel.interval)
                (quotient_pos e.timeoutms p.wheel.interval i (w k)) s,
          )))
        ∙ append_assoc p.fired (e.callback ∷ []) (due_now p.todo)
        ∙ runs d r
        ∙ h)
      (λ d r k s. append_assoc p.fired (e.callback ∷ []) (due_now p.todo) ∙ runs d r ∙ h)
  where
    runs :
        e.disabled ≡ false
        → e.round ≡ 0
        → p.fired ++ e.callback ∷ due_now p.todo ≡ p.fired ++ due_now (some e ∷ p.todo)
    runs d r = ap (λ (l : List ℕ). p.fired ++ l) (sym (due_now-runs e p.todo d r))
