-- ===== src/Blocking/Tests.antt =====
-- src/BlockingQueue.cpp at concrete inputs.
use generic_server.Prelude.{◌≡◌, refl, [], ◌∷◌, arith}
use generic_server.Blocking.Defs.{Blocking, init, put, take, retake}
use generic_server.Blocking.Served.{Run, Serves, starts, puts, takes, retakes, Run-Serves}

-- A reader sleeps, an item comes, the reader takes it and another item comes.
abbrev served : Blocking
served = put 8 (retake (put 7 (take init).1)).1

served_queue : served ≡ record { queue = 8 ∷ []; asleep = 0; woken = 0 }
unfolding put take retake
served_queue = refl

served_Run : Run (7 ∷ 8 ∷ []) (7 ∷ []) served
unfolding put take retake
served_Run = puts 8 (retakes (puts 7 (takes starts)) (omega arith))

Run-Serves_example : Serves (7 ∷ 8 ∷ []) (7 ∷ []) served
Run-Serves_example = Run-Serves served_Run
