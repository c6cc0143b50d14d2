-- ===== src/Loop/Tests.antt =====
-- src/reactor/EventLoop.cpp at concrete inputs.
use generic_server.Prelude.{◌≡◌, refl, false, Option, some, [], ◌∷◌}
use generic_server.Prelude.Int.{pos}
use generic_server.Event.{Event, enable_read}
use generic_server.Event
use generic_server.Wheel
use generic_server.Loop.Defs.{
  Loop, Work, user_task, add_task, add_event, run_task, run_tasks, do_pending, wakeup, add_pending,
}
use generic_server.Loop.Deferred.{make, make_all, adds, runs, do_pending-make_all}
use generic_server.Loop.Wakeup.{Turns, Goes, IsAwake, waiting, stays, posts, wakes, turns-IsAwake}

-- Thread 1 runs the loop; event 0 is the descriptor 7.
abbrev idle : Loop
idle = record {
  thread_id = 1;
  quit = false;
  work = record {
    events = λ n. enable_read (Event.init (pos 7));
    poller = record { controls = []; room = 16 };
    timer_wheel = Wheel.init 1000;
    ran = [];
  };
  active_events = [];
  wakeup_count = 0;
  pending = [];
}

-- Thread 2 asks for the event 0 and for two functions; the loop's thread does the same itself.
abbrev asked : Option Loop
asked = make_all 2 (adds 0 ∷ runs 8 ∷ runs 9 ∷ []) idle

abbrev posted : Loop
posted = record idle { pending = add_task 0 ∷ user_task 8 ∷ user_task 9 ∷ []; wakeup_count = 3 }

abbrev done : Loop
done =
    let w : Work = idle.work in
    record idle { work = run_tasks (add_task 0 ∷ user_task 8 ∷ user_task 9 ∷ []) w }

asks : asked ≡ some posted
unfolding make_all make add_event
asks = refl

does : make_all 1 (adds 0 ∷ runs 8 ∷ runs 9 ∷ []) (do_pending idle) ≡ some done
unfolding make_all make add_event run_tasks run_task
does = refl

does_run : done.work.ran ≡ 8 ∷ 9 ∷ []
unfolding run_tasks run_task
does_run = refl

do_pending-make_all_example : do_pending posted ≡ record done { wakeup_count = 3 }
do_pending-make_all_example =
    do_pending-make_all 2 (adds 0 ∷ runs 8 ∷ runs 9 ∷ []) idle posted done refl asks does

-- Thread 2 has left a task and calls wakeup.
abbrev asleep : Turns
asleep = record { loop = idle; phase = waiting; posting = 0 }

abbrev left : Turns
left = record asleep { loop = add_pending (user_task 8) idle; posting = 1 }

abbrev woken : Turns
woken = record left { loop = wakeup 2 (add_pending (user_task 8) idle); posting = 0 }

woken-Goes : Goes asleep woken
woken-Goes = wakes 2 0 (posts 2 (user_task 8) stays refl) refl refl

turns-IsAwake_example : IsAwake woken
turns-IsAwake_example = turns-IsAwake refl woken-Goes
