-- ===== src/Loop/Defs.antt =====
-- src/reactor/EventLoop.h, EventLoop.cpp and EPollPoller.cpp: the state of a loop, its public
-- functions and what they leave to the loop's thread. An event is known by its number, which stands
-- for the pointer to it.
use generic_server.Prelude.{
  ℕ, suc, ◌*◌, Bool, true, false, Option, none, some, List, [], ◌∷◌, ◌++◌, if◌then◌else◌, ◌==◌,
  length,
}
use generic_server.Prelude.Int.{ℤ}
use generic_server.Event.{Mask, Event, set_polling, set_revents}
use generic_server.Wheel.{Entry, Wheel, add}

-- The operations of epoll_ctl that EPollPoller uses.
pub data Operation : Type 0 where
  ctl_add : Operation
  ctl_del : Operation
  ctl_mod : Operation

-- One call of epoll_ctl: the operation, the descriptor and the events asked for.
abbrev pub Control : Type 0
Control = Operation × ℤ × Mask

-- EPollPoller: the calls of epoll_ctl so far, and the room in m_events.
pub record Poller : Type 0 where
  pub controls : List Control
  pub room : ℕ

-- What the functions that run in the loop's thread work on: the events by their numbers, the
-- poller, the timers, and the user's functions that ran.
pub record Work : Type 0 where
  pub events : ℕ → Event
  pub poller : Poller
  pub timer_wheel : Wheel
  pub ran : List ℕ

-- What m_pending can hold: the lambdas of addEvent, modifyEvent, removeEvent and addTimer, and a
-- user's function, known by a number.
pub data Task : Type 0 where
  add_task : ℕ → Task
  modify_task : ℕ → Task
  remove_task : ℕ → Task
  timer_task : Entry → Task
  user_task : ℕ → Task

pub record Loop : Type 0 where
  pub thread_id : ℕ
  pub quit : Bool
  pub work : Work
  pub active_events : List ℕ
  pub wakeup_count : ℕ
  pub pending : List Task

abbrev pub put : ℕ → Event → Work → Work
put k e w = let old : ℕ → Event = w.events in record w { events = λ n. if n == k then e else old n }

-- EPollPoller::updateEvent.
abbrev pub update_event : ℕ → Operation → Work → Work
update_event k op w =
    let p : Poller = w.poller in
    let e : Event = w.events k in
    record w { poller = record p { controls = p.controls ++ (op, e.fd, e.events) ∷ [] } }

abbrev pub register : ℕ → Work → Work
register k w = update_event k ctl_add w

abbrev pub withdraw : ℕ → Work → Work
withdraw k w = update_event k ctl_del w

abbrev pub change : ℕ → Work → Work
change k w = update_event k ctl_mod w

-- The bodies of the public functions, run in the loop's thread.
unfoldable pub run_task : Task → Work → Work
run_task (add_task k) w = let w' : Work = register k w in put k (set_polling true (w'.events k)) w'
run_task (modify_task k) w = change k w
run_task (remove_task k) w =
    if (w.events k).polling
    then (let w' : Work = withdraw k w in put k (set_polling false (w'.events k)) w')
    else w
run_task (timer_task t) w = record w { timer_wheel = add t w.timer_wheel }
run_task (user_task f) w = record w { ran = w.ran ++ f ∷ [] }

unfoldable pub run_tasks : List Task → Work → Work
run_tasks [] w = w
run_tasks (t ∷ ts) w = run_tasks ts (run_task t w)

abbrev pub is_in_loop_thread : ℕ → Loop → Bool
is_in_loop_thread tid l = l.thread_id == tid

abbrev pub add_pending : Task → Loop → Loop
add_pending t l = record l { pending = l.pending ++ t ∷ [] }

-- A write to the eventfd adds one to its counter.
abbrev pub wakeup : ℕ → Loop → Loop
wakeup tid l = if is_in_loop_thread tid l then l else record l { wakeup_count = suc l.wakeup_count }

-- What every public function does with its body.
abbrev pub run_in_loop : ℕ → Task → Loop → Loop
run_in_loop tid t l =
    if is_in_loop_thread tid l
    then record l { work = run_task t l.work }
    else wakeup tid (add_pending t l)

-- A failed assert is none.
unfoldable pub add_event : ℕ → ℕ → Loop → Option Loop
add_event tid k l =
    if (l.work.events k).polling then none else some (run_in_loop tid (add_task k) l)

unfoldable pub modify_event : ℕ → ℕ → Loop → Option Loop
modify_event tid k l =
    if (l.work.events k).polling then some (run_in_loop tid (modify_task k) l) else none

abbrev pub remove_event : ℕ → ℕ → Loop → Loop
remove_event tid k l = run_in_loop tid (remove_task k) l

abbrev pub add_timer : ℕ → Entry → Loop → Loop
add_timer tid t l = run_in_loop tid (timer_task t) l

abbrev pub do_pending : Loop → Loop
do_pending l = record l { work = run_tasks l.pending l.work; pending = [] }

-- A read of the eventfd sets its counter to 0.
abbrev pub handle_wakeup : Loop → Loop
handle_wakeup l = record l { wakeup_count = 0 }

-- What epoll_wait stored: the number of an event and what was received for it.
abbrev pub Received : Type 0
Received = List (ℕ × Mask)

-- EPollPoller::poll after epoll_wait stored events.
unfoldable pub store : Received → Work → Work
store [] w = w
store (r ∷ rs) w = store rs (put r.0 (set_revents r.1 (w.events r.0)) w)

unfoldable pub collect : Received → List ℕ
collect [] = []
collect (r ∷ rs) = r.0 ∷ collect rs

abbrev pub grow : Received → Poller → Poller
grow rs p = if length rs == p.room then record p { room = 2 * p.room } else p

-- The answer of epoll_wait: events, a timeout, EINTR, or another error.
pub data Waited : Type 0 where
  received : Received → Waited
  timeout : Waited
  interrupted : Waited
  broken : Waited

-- One turn up to the handlers; the other errors abort.
unfoldable pub poll : Waited → Loop → Option Loop
unfolding store collect
poll (received rs) l =
    let w : Work = store rs l.work in
    some (record l { work = record w { poller = grow rs w.poller }; active_events = collect rs })
poll timeout l = some (record l { active_events = [] })
poll interrupted l = some (record l { active_events = [] })
poll broken l = none
