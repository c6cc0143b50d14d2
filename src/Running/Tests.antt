-- ===== src/Running/Tests.antt =====
-- src/reactor/EventLoop.cpp (loop) and EventLoopThread.cpp at concrete inputs.
use generic_server.Prelude.{ℕ, ◌≡◌, ◌≢◌, refl, ◌>>=◌, true, false, Option, none, some, [], ◌∷◌}
use generic_server.Prelude.Int.{pos, negsuc}
use generic_server.Event.{Mask, enable_read}
use generic_server.Event
use generic_server.Loop.{ctl_add, Loop, timeout, broken}
use generic_server.Running.Defs.{construct, runs, quits, Round, LoopThread, loop_thread, start}
use generic_server.Running.Steps.{asked, asks_end, no_call, runs_call, quits_call, Is, IsQuiet}
use generic_server.Running.Ends.{AllWork, no_round, works_too, asked_all, loop_thread-ends}

-- What an event that reads asks for.
abbrev reads : Mask
reads = (enable_read (Event.init (pos 0))).events

abbrev idle : Loop
idle = construct 0 (pos 7) (pos 8) (λ n. Event.init (negsuc 0))

polls_two : idle.work.poller.controls ≡ (ctl_add, pos 7, reads) ∷ (ctl_add, pos 8, reads) ∷ []
polls_two = refl

abbrev none_handled : ℕ → Loop → Option Loop
none_handled k l = some l

none_handled-IsQuiet : IsQuiet none_handled
none_handled-IsQuiet k l =
    (l, refl, record { same_thread = refl; same_quit = refl; same_ran = refl; same_pending = refl })

-- Thread 2 asks for 8 before and for 9 during the first turn, then for 5 and for the end.
abbrev first : Round
first = record { before = runs 2 8 ∷ []; answer = timeout; during = runs 2 9 ∷ [] }

abbrev last : Round
last = record { before = runs 2 5 ∷ quits ∷ []; answer = timeout; during = [] }

timeout_ne : timeout ≢ broken
timeout_ne e = cc

first-AllWork : AllWork 1 (first ∷ [])
unfolding asks_end
first-AllWork =
    works_too
      (record {
        polls = timeout_ne;
        before_foreign = runs_call refl no_call;
        during_foreign = runs_call refl no_call;
        goes_on = refl;
        goes_on_during = refl;
      })
      no_round

-- A thread cannot be started twice.
abbrev thread : LoopThread
thread = record { has_thread = false; event_loop = idle }

starts_once : ◌≡◌ {A = Option LoopThread} (do t ← start thread; start t) none
unfolding start
starts_once = refl

loop_thread-ends_example :
    (l : Loop) × (loop_thread none none none_handled (first ∷ last ∷ []) 1 idle ≡ some l)
    × Is 1 true (8 ∷ 9 ∷ []) (5 ∷ []) l
unfolding asked asked_all asks_end
loop_thread-ends_example =
    loop_thread-ends none_handled 1 idle last [] none_handled-IsQuiet refl refl first-AllWork
      (runs_call refl (quits_call no_call)) refl
