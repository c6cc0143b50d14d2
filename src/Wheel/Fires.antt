-- ===== src/Wheel/Fires.antt =====
-- src/reactor/Timer.cpp: after how many ticks a new timer runs for the first time.
use mathlib.Core.Path.{subst}
use generic_server.Prelude.{
  ℕ, zero, suc, ◌+◌, ◌*◌, ◌-◌, ◌/◌, ◌%◌, ◌<◌, ◌≡◌, ◌≢◌, refl, false, Option, none, some, List, [],
  ◌∷◌, ◌++◌, arith, ltb, if◌then◌else◌, ◌>>=◌, get_or-set_self,
}
use generic_server.Wheel.Defs.{
  Entry, Wheel, TimerList, round_size, slot, target, placed, add_entry, add, tick,
}
use generic_server.Wheel.Loop.{All, Waits, tick_returns}
use generic_server.Wheel.Rule.{Any, Any-snoc, All-append_slot}
use generic_server.Wheel.Ready.{IsValid, add_entry-IsValid, tick-IsValid}
use generic_server.Wheel.Due.{Holds, Due, due, distance, Closer, ran_now, later, tick-Closer}
use generic_server.Wheel.Early.{AtLeast, NotBefore, tick-NotBefore}

-- `n` ticks in a row, with the callbacks that each ran.
unfoldable pub ticks : ℕ → Wheel → Option (Wheel × List (List ℕ))
ticks zero w = some (w, [])
ticks (suc n) w = do (w1, fired) ← tick w; (w2, more) ← ticks n w1; some (w2, fired ∷ more)

-- `f` runs in the tick after `j` ticks, and in none of those.
abbrev pub RunsAfter : ℕ → ℕ → List (List ℕ) → Type 0
RunsAfter f j [] = ⊥
RunsAfter f zero (fired ∷ more) = Any (λ g. g ≡ f) fired
RunsAfter f (suc j) (fired ∷ more) = All (λ g. g ≢ f) fired × RunsAfter f j more

runs :
    (f j : ℕ) (w : Wheel)
    → IsValid w
    → Due w f j
    → NotBefore w f j
    → (w' : Wheel) × (log : List (List ℕ)) × (ticks (suc j) w ≡ some (w', log)) × RunsAfter f j log
unfolding ticks
runs f zero w v d n =
    let (w', fired, e) = tick_returns w v.in_range v.positive (v.wait w.cur) in
    (w', fired ∷ [], rw e, now (tick-Closer f 0 w w' fired v d e))
  where
    now : {w' : Wheel} {fired : List ℕ} → Closer f 0 w' fired → Any (λ g. g ≡ f) fired
    now (ran_now z h) = h
    now (later p h) = absurd (omega arith)
runs f (suc j) w v d n =
    let (w1, fired, e) = tick_returns w v.in_range v.positive (v.wait w.cur) in
    let (quiet, n1) = tick-NotBefore f (suc j) w w1 fired (omega arith) v n e in
    let (v1, c, i) = tick-IsValid w w1 fired v e in
    let (w2, more, e2, r) =
      runs f j w1 v1 (still (tick-Closer f (suc j) w w1 fired v d e))
        (subst (NotBefore w1 f) down n1) in
    (w2, fired ∷ more, rw (e, e2), (quiet, r))
  where
    down : suc j - 1 ≡ j
    down = omega arith

    still : {w' : Wheel} {fired : List ℕ} → Closer f (suc j) w' fired → Due w' f j
    still (ran_now z h) = absurd (omega arith)
    still {w'} (later p h) = subst (Due w' f) down h

abbrev pub Other : ℕ → Option Entry → Type 0
Other f none = Unit {0}
Other f (some e) = e.callback ≢ f

-- No timer of the wheel has the callback `f`.
abbrev pub Fresh : ℕ → Wheel → Type 0
Fresh f w = (s : ℕ) → All (Other f) (slot w s)

Other-AtLeast : (f m : ℕ) (l : TimerList) → All (Other f) l → All (AtLeast f m) l
Other-AtLeast f m [] h = tt
Other-AtLeast f m (none ∷ l) h = (tt, Other-AtLeast f m l h.1)
Other-AtLeast f m (some e ∷ l) h = ((λ c. absurd (h.0 c)), Other-AtLeast f m l h.1)

-- The ticks that pass before a timer of `k` intervals runs, if it is added at position `cur`: a
-- whole round more than `k`, if the position comes round on the way.
abbrev pub wait_ticks : ℕ → ℕ → ℕ
wait_ticks cur k = if ltb (cur + k % round_size) round_size then k else k + round_size

wait_ticks-eq :
    (c k : ℕ) → c < 100 → wait_ticks c k ≡ ((c + k) % 100 + 100 - c) % 100 + 100 * ((c + k) / 100)
wait_ticks-eq c k h = ground arith

module _ (e : Entry) (w : Wheel) (v : IsValid w) (live : e.disabled ≡ false) where
  new_slot : ℕ
  new_slot = target w e % round_size

  add-Due : Due (add e w) e.callback (wait_ticks w.cur (e.timeoutms / w.interval))
  unfolding add add_entry new_slot
  add-Due =
      due new_slot (target w e / round_size) (omega arith)
        (rw
          (get_or-set_self w.slots new_slot (slot w new_slot ++ some (placed w e) ∷ []) []
            (omega (arith, v.all_slots)))
          (Any-snoc (Holds e.callback (target w e / round_size)) (slot w new_slot)
            (some (placed w e)) (refl, live, refl)))
        (wait_ticks-eq w.cur (e.timeoutms / w.interval) v.in_range)

  add-NotBefore :
      Fresh e.callback w
      → NotBefore (add e w) e.callback (wait_ticks w.cur (e.timeoutms / w.interval))
  unfolding add add_entry
  add-NotBefore fresh s l =
      All-append_slot (AtLeast e.callback m) w.slots (target w e % round_size) s (some (placed w e))
        (Other-AtLeast e.callback m (slot w s) (fresh s))
        (λ at h. omega (arith, wait_ticks-eq w.cur (e.timeoutms / w.interval) v.in_range))
    where
      m : ℕ
      m = wait_ticks w.cur (e.timeoutms / w.interval) - distance w s

-- Once the timer is added, the wheel ticks `j + 1` times, and its callback runs in the last of
-- these ticks and in none before.
abbrev pub RunsFirst : Entry → Wheel → ℕ → Type 0
RunsFirst e w j =
    (w' : Wheel) × (log : List (List ℕ)) × (ticks (suc j) (add e w) ≡ some (w', log))
    × RunsAfter e.callback j log

-- A new live timer of `k` intervals: the wheel ticks on without stalling, the callback runs in the
-- tick after `k` ticks if the position does not come round before it reaches the timer's slot, and
-- after `k + 100` ticks if it does; it runs in no tick before that.
pub add_runs_after :
    (e : Entry) (w : Wheel)
    → IsValid w
    → e.disabled ≡ false
    → Waits w.interval (some e)
    → Fresh e.callback w
    → RunsFirst e w (wait_ticks w.cur (e.timeoutms / w.interval))
unfolding add
add_runs_after e w v live h fresh =
    runs e.callback (wait_ticks w.cur (e.timeoutms / w.interval)) (add e w)
      (add_entry-IsValid e w v h) (add-Due e w v live) (add-NotBefore e w v live fresh)
