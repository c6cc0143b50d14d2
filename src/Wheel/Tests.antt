-- ===== src/Wheel/Tests.antt =====
-- src/reactor/Timer.cpp at concrete inputs.
use mathlib.Core.Path.{subst}
use generic_server.Prelude.{
  ℕ, zero, suc, sym, List, ◌≡◌, refl, true, some, none, [], ◌∷◌, arith, replicate,
}
use generic_server.Wheel.Defs.{Entry, entry, Wheel, slot, tick, tick_turns}
use generic_server.Wheel.Loop.{All, Waits, tick_stalls}
use generic_server.Wheel.Ready.{IsValid, empty-IsValid, get_or-replicate_nil}
use generic_server.Wheel.Bag.{Ticked, tick-Ticked}
use generic_server.Wheel.Fires.{Fresh, RunsFirst, add_runs_after}

-- A wheel of 1000 ms, at its last slot.
abbrev last_slot : Wheel
last_slot = record { cur = 99; interval = 1000; slots = replicate 100 [] }

abbrev every_second : Entry
every_second = entry 7 1000 true

abbrev too_fast : Entry
too_fast = entry 8 5 true

last_slot-IsValid : IsValid last_slot
last_slot-IsValid = empty-IsValid 99 1000 (omega arith) (omega arith)

nothing_there : (f : ℕ) → Fresh f last_slot
nothing_there f s = rw (get_or-replicate_nil 100 s) tt

-- The timer of one second that is added at the last slot first runs after 101 ticks.
add_runs_after_example : RunsFirst every_second last_slot 101
add_runs_after_example =
    add_runs_after every_second last_slot last_slot-IsValid refl (λ r. omega arith)
      (nothing_there 7)

-- The wheel of the loops, with a repeating timer of 5 ms in the slot that comes first.
abbrev stalled : Wheel
stalled = record { cur = 0; interval = 1000; slots = (some too_fast ∷ []) ∷ [] }

tick_stalls_example : tick_turns 1000 stalled ≡ none
tick_stalls_example =
    tick_stalls 1000 stalled too_fast [] [] (omega arith) refl
      (record { again = refl; live = refl; due = refl; short = refl })

last_tick :
    tick last_slot ≡ some (record { cur = 0; interval = 1000; slots = replicate 100 [] }, [])
unfolding tick
last_tick = refl

-- A timer of one second is due.
abbrev due_slot : Wheel
due_slot = record {
  cur = 1;
  interval = 1000;
  slots = [] ∷ (some every_second ∷ []) ∷ replicate 98 [];
}

due_slot-waits : (s : ℕ) → All (Waits 1000) (slot due_slot s)
due_slot-waits zero = tt
due_slot-waits (suc zero) = ((λ r. omega arith), tt)
due_slot-waits (suc (suc s)) = subst (All (Waits 1000)) (sym (get_or-replicate_nil 98 s)) tt

due_slot-IsValid : IsValid due_slot
due_slot-IsValid = record {
  in_range = omega arith;
  positive = omega arith;
  all_slots = refl;
  wait = due_slot-waits;
}

tick-Ticked_example :
    (w' : Wheel) × (fired : List ℕ) × (tick due_slot ≡ some (w', fired)) × Ticked due_slot w' fired
tick-Ticked_example = tick-Ticked due_slot due_slot-IsValid
