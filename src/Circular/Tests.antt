-- ===== src/Circular/Tests.antt =====
-- src/log/-CircularBuffer.cpp at concrete inputs.
use generic_server.Prelude.{◌≡◌, refl, false, none, List, [], ◌∷◌, arith}
use generic_server.Circular.Defs.{Circular, init, push, pop}
use generic_server.Circular.Items.{IsValid, items}
use generic_server.Circular.Refine.{accepted, sleeps, got, nothing, attempt}
use generic_server.Circular.Waits.{
  Op, calls, wakes, takes, Shared, step, view, run, queue_run, run-queue_run,
}

-- Room for two.
abbrev fresh : Circular
fresh = init 3

fresh-IsValid : IsValid fresh
fresh-IsValid = record { head_in = omega arith; tail_in = omega arith; runs = refl }

-- The third call has to wait, and ends when it is woken after a pop.
abbrev script : List Op
script =
    calls (1 ∷ [])
    ∷ calls (2 ∷ [])
    ∷ calls (3 ∷ [])
    ∷ wakes
    ∷ takes
    ∷ wakes
    ∷ takes
    ∷ takes
    ∷ takes
    ∷ []

abbrev idle : Shared
idle = record { ring = fresh; asleep = false }

ran : run script idle ≡ (
  accepted
      ∷ accepted
      ∷ sleeps
      ∷ sleeps
      ∷ got (1 ∷ [])
      ∷ accepted
      ∷ got (2 ∷ [])
      ∷ got (3 ∷ [])
      ∷ nothing
      ∷ [],
  record { items = []; waiting = none },
)
unfolding run step attempt push pop items
ran = refl

run-queue_run_example : run script idle ≡ queue_run 2 script (view idle)
run-queue_run_example = run-queue_run script idle fresh-IsValid
