-- ===== src/Loop/Wakeup.antt =====
-- src/reactor/EventLoop.cpp: the turns of the loop's thread, interleaved with other threads that
-- run addPending and then wakeup.
use generic_server.Prelude.{ℕ, suc, ◌+◌, ◌<◌, ◌≡◌, ◌≢◌, refl, sym, ◌∙◌, false, some, [], arith}
use generic_server.Loop.Defs.{
  Loop, Work, Task, Waited, is_in_loop_thread, add_pending, wakeup, handle_wakeup, do_pending, poll,
}

-- Where the loop's thread is: in epoll_wait, or between it and the end of the turn.
pub data Phase : Type 0 where
  waiting : Phase
  handling : Phase

-- The loop, where its thread is, and how many threads have left a task and not yet called wakeup.
pub record Turns : Type 0 where
  pub loop : Loop
  pub phase : Phase
  pub posting : ℕ

-- The steps of a loop's thread and of the others. The handlers of a turn work on anything of the
-- loop but its pending tasks and the eventfd.
pub data Goes : Turns → Turns → Type 0 where
  stays : {s : Turns} → Goes s s
  posts :
      {s t : Turns} (tid : ℕ) (x : Task)
      → Goes s t
      → is_in_loop_thread tid t.loop ≡ false
      → Goes s (record t { loop = add_pending x t.loop; posting = suc t.posting })
  wakes :
      {s t : Turns} (tid n : ℕ)
      → Goes s t
      → is_in_loop_thread tid t.loop ≡ false
      → t.posting ≡ suc n
      → Goes s (record t { loop = wakeup tid t.loop; posting = n })
  polls :
      {s t : Turns} (a : Waited) (l : Loop)
      → Goes s t
      → t.phase ≡ waiting
      → poll a t.loop ≡ some l
      → Goes s (record t { loop = l; phase = handling })
  reads :
      {s t : Turns}
      → Goes s t
      → t.phase ≡ handling
      → Goes s (record t { loop = handle_wakeup t.loop })
  handles :
      {s t : Turns} (w : Work)
      → Goes s t
      → t.phase ≡ handling
      → Goes s (let l : Loop = t.loop in record t { loop = record l { work = w } })
  ends :
      {s t : Turns}
      → Goes s t
      → t.phase ≡ handling
      → Goes s (record t { loop = do_pending t.loop; phase = waiting })

-- A thread that sleeps with tasks pending has the eventfd to wake it, or is about to be woken.
abbrev pub IsAwake : Turns → Type 0
IsAwake t = t.phase ≡ waiting → t.loop.pending ≢ [] → 0 < t.loop.wakeup_count + t.posting

not_waiting : handling ≢ waiting
not_waiting e = cc

-- No wakeup is lost: from a start with nothing pending, whenever the loop's thread is in epoll_wait
-- while tasks are pending, the eventfd's counter is not 0 or some thread is between its addPending
-- and its wakeup.
pub turns-IsAwake : {s t : Turns} → s.loop.pending ≡ [] → Goes s t → IsAwake t
turns-IsAwake z stays = λ p q. absurd (q z)
turns-IsAwake z (posts tid x g o) = λ p q. omega arith
turns-IsAwake z (wakes tid n g o e) = λ p q. rw o (omega arith)
turns-IsAwake z (polls a l g p e) = λ q. absurd (not_waiting q)
turns-IsAwake z (reads g p) = λ q. absurd (not_waiting (sym p ∙ q))
turns-IsAwake z (handles w g p) = λ q. absurd (not_waiting (sym p ∙ q))
turns-IsAwake z (ends g p) = λ q r. absurd (r refl)
