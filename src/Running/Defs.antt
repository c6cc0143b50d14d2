-- ===== src/Running/Defs.antt =====
-- src/reactor/EventLoop.cpp, EventLoopThread.h and EventLoopThread.cpp: the turns of
-- EventLoop::loop, its start in a thread and its end. What the handlers of an event do is an
-- argument.
use generic_server.Prelude.{
  ℕ, Bool, true, false, Option, none, some, List, [], ◌∷◌, if◌then◌else◌, ◌>>=◌,
}
use generic_server.Loop.{
  Loop, Work, put, register, Waited, user_task, run_in_loop, poll, do_pending,
}
use generic_server.Prelude.Int.{ℤ}
use generic_server.Event.{Event, enable_read}
use generic_server.Event
use generic_server.Wheel

abbrev pub timer_interval : ℕ
timer_interval = 1000

-- The room for events that EPollPoller starts with.
abbrev pub init_size : ℕ
init_size = 16

-- What a thread does with a loop: it asks for a function, or for the end.
pub data Call : Type 0 where
  runs : ℕ → ℕ → Call
  quits : Call

-- The constructor EventLoop() in the thread `tid`, with the descriptors of the eventfd and of the
-- timer; their events have the numbers 0 and 1. `events` is any store of the other events.
abbrev pub construct : ℕ → ℤ → ℤ → (ℕ → Event) → Loop
construct tid wakeup_fd timer_fd events =
    let blank : Work = record {
      events = events;
      poller = record { controls = []; room = init_size };
      timer_wheel = Wheel.init timer_interval;
      ran = [];
    } in
    let woken : Work = register 0 (put 0 (enable_read (Event.init wakeup_fd)) blank) in
    record {
      thread_id = tid;
      quit = false;
      work = register 1 (put 1 (enable_read (Event.init timer_fd)) woken);
      active_events = [];
      wakeup_count = 0;
      pending = [];
    }

abbrev pub quit : Loop → Loop
quit l = record l { quit = true }

abbrev pub set_thread_id : ℕ → Loop → Loop
set_thread_id tid l = record l { thread_id = tid }

abbrev pub call : Call → Loop → Loop
call (runs tid f) l = run_in_loop tid (user_task f) l
call quits l = quit l

unfoldable pub calls : List Call → Loop → Loop
calls [] l = l
calls (c ∷ cs) l = calls cs (call c l)

-- The calls before the test of m_quit, the answer of epoll_wait, and the calls until doPending.
pub record Round : Type 0 where
  pub before : List Call
  pub answer : Waited
  pub during : List Call

unfoldable pub handle_all : (ℕ → Loop → Option Loop) → List ℕ → Loop → Option Loop
handle_all handle [] l = some l
handle_all handle (k ∷ ks) l = do l' ← handle k l; handle_all handle ks l'

unfoldable pub turn : (ℕ → Loop → Option Loop) → Round → Loop → Option Loop
turn handle r l = do
  l₁ ← poll r.answer l
  l₂ ← handle_all handle l₁.active_events l₁
  some (do_pending (calls r.during l₂))

-- EventLoop::loop; `none` is that it still runs when the rounds end, or a fault.
unfoldable pub loop : (ℕ → Loop → Option Loop) → List Round → Loop → Option Loop
loop handle [] l = none
loop handle (r ∷ rs) l =
    let m : Loop = calls r.before l in
    let rest : Option Loop = (do m' ← turn handle r m; loop handle rs m') in
    if m.quit then some m else rest

-- EventLoopThread: whether m_thread is set, and the loop.
pub record LoopThread : Type 0 where
  pub has_thread : Bool
  pub event_loop : Loop

unfoldable pub start : LoopThread → Option LoopThread
start t = if t.has_thread then none else some (record t { has_thread = true })

-- join returns when the thread has ended.
abbrev pub join : LoopThread → LoopThread
join t = record t { has_thread = false }

abbrev pub stop : LoopThread → LoopThread
stop t = let l : Loop = t.event_loop in record t { event_loop = quit l }

-- The body of the thread `tid`; the functions are set or not.
unfoldable pub loop_thread :
    Option (Loop → Loop)
    → Option (Loop → Loop)
    → (ℕ → Loop → Option Loop)
    → List Round
    → ℕ
    → Loop
    → Option Loop
loop_thread pre post handle rs tid l = do
  l' ← loop handle rs (Event.call pre (set_thread_id tid l))
  some (Event.call post l')
