-- ===== src/Pool/Tests.antt =====
-- src/reactor/EventLoopThreadPool.h at concrete inputs.
use generic_server.Prelude.{ℕ, ◌≡◌, refl, Option, none, [], ◌∷◌}
use generic_server.Prelude.Int.{pos}
use generic_server.Pool.Defs.{Pool, init, start, at}

abbrev three : Pool
three = record (start (init 3)) { loops = 10 ∷ 11 ∷ 12 ∷ []; next_loop = 1 }

faults : ◌≡◌ {A = Option ℕ} (at (pos 3) three) none
unfolding at
faults = refl
