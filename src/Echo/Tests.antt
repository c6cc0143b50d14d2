-- ===== src/Echo/Tests.antt =====
-- example/EchoServer.h at concrete inputs.
use generic_server.Prelude.{ℕ, ◌≡◌, ◌≢◌, refl, true, none, some, List, [], ◌∷◌, replicate, arith}
use generic_server.Prelude.Int.{pos}
use generic_server.Wheel.{entry, add, add_entry, tick, tick_loop, visit}
use generic_server.Wheel.Loop.{All}
use generic_server.Idle
use generic_server.Idle.Expiry.{Op, ticks, adds, Leaves}
use generic_server.Pool
use generic_server.Server.{Server, Target, main, all_loops}
use generic_server.Server
use generic_server.Echo.Defs.{Worker, expire, run_callbacks, construct}
use generic_server.Echo.Loops.{NeverTicks, construct-NeverTicks}
use generic_server.Echo.Timeout.{IsReady, Outlives, touch-Outlives}
use generic_server.Echo.Start.{worker, expire-IsReady}

-- The worker of the thread 9, after the first tick of its wheel.
abbrev started : Worker
started = record {
  wheel = record {
    cur = 1;
    interval = 1000;
    slots = [] ∷ (some (entry 9 1000 true) ∷ []) ∷ replicate 98 [];
  };
  idle = Idle.init;
}

started_there : expire 9 (worker 9) ≡ some started
unfolding expire add add_entry tick tick_loop visit run_callbacks
started_there = refl

started-IsReady : IsReady 9 started
started-IsReady = expire-IsReady 9 started started_there

-- Another connection comes, and 59 ticks of the wheel pass.
abbrev script : List Op
script = ticks ∷ adds 2 ∷ replicate 58 ticks

script-Leaves : Leaves 1 script
script-Leaves = ((λ e. omega (arith, e)), tt)

touch-Outlives_example :
    Outlives 1 9 script started (record started { idle = Idle.add 1 Idle.init })
    × Outlives 1 9 script started (record started { idle = Idle.update 1 Idle.init })
touch-Outlives_example = touch-Outlives 1 9 script started started-IsReady script-Leaves

-- No thread has set its number yet: 7 is the main thread's.
abbrev too_early : Target → ℕ
too_early t = 7

abbrev bound : Server
bound = record {
  pool = none;
  conn_map = [];
  actions =
      Server.sets_reuse_addr ∷ Server.sets_reuse_port ∷ Server.binds ∷ Server.polls_listener ∷ [];
}

abbrev ready : Server
ready = record bound { pool = some (Pool.start (Pool.init 2)) }

bound_there : Server.construct true ≡ some bound
unfolding Server.construct
bound_there = refl

ready_there : Server.init 8 (pos 2) bound ≡ some ready
unfolding Server.init
ready_there = refl

none_read : All (λ t. too_early t ≢ 20) (all_loops ready)
unfolding all_loops Pool.count_up
none_read = ((λ e. omega (arith, e)), ((λ e. omega (arith, e)), tt))

construct-NeverTicks_example : NeverTicks (construct 8 true (pos 2) too_early) 1 20
construct-NeverTicks_example =
    construct-NeverTicks 8 true (pos 2) too_early bound ready 1 20 bound_there ready_there none_read
