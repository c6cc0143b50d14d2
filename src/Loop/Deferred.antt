-- ===== src/Loop/Deferred.antt =====
-- src/reactor/EventLoop.cpp: what another thread asks of a loop is done by the loop's thread in
-- doPending, in the same order.
use generic_server.Prelude.{
  ℕ, suc, ◌≡◌, refl, sym, ◌∙◌, true, false, Option, some, some_eq, ◌==◌, Bool-cases, none_ne,
  bind_some, ◌>>=◌, inl, inr, arith, List, [], ◌∷◌, ◌++◌, append_assoc, append-nil, length, ◌+◌,
}
use generic_server.Wheel.{Entry}
use generic_server.Loop.Defs.{
  Loop, Work, Task, add_task, modify_task, remove_task, timer_task, user_task, run_task, run_tasks,
  run_in_loop, add_event, modify_event, remove_event, add_timer, do_pending, is_in_loop_thread,
}

-- A call of one of the public functions of a loop.
pub data Call : Type 0 where
  adds : ℕ → Call
  modifies : ℕ → Call
  removes : ℕ → Call
  times : Entry → Call
  runs : ℕ → Call

abbrev pub task_of : Call → Task
task_of (adds k) = add_task k
task_of (modifies k) = modify_task k
task_of (removes k) = remove_task k
task_of (times t) = timer_task t
task_of (runs f) = user_task f

-- The call, made by the thread tid.
unfoldable pub make : ℕ → Call → Loop → Option Loop
make tid (adds k) l = add_event tid k l
make tid (modifies k) l = modify_event tid k l
make tid (removes k) l = some (remove_event tid k l)
make tid (times t) l = some (add_timer tid t l)
make tid (runs f) l = some (run_in_loop tid (user_task f) l)

unfoldable pub make_all : ℕ → List Call → Loop → Option Loop
unfolding make
make_all tid [] l = some l
make_all tid (c ∷ cs) l = do l' ← make tid c l; make_all tid cs l'

-- The tasks that calls leave.
unfoldable pub tasks_of : List Call → List Task
tasks_of [] = []
tasks_of (c ∷ cs) = task_of c ∷ tasks_of cs

-- A call that fails no assert does its task, or leaves it.
make_lem :
    (tid : ℕ) (c : Call) (l l' : Loop) → make tid c l ≡ some l' → run_in_loop tid (task_of c) l ≡ l'
unfolding make add_event modify_event
make_lem tid (adds k) l l' e = elim (Bool-cases (l.work.events k).polling) [
  | inl p ↦ none_ne (rw p at e)
  | inr p ↦ some_eq (rw p at e)
]
make_lem tid (modifies k) l l' e = elim (Bool-cases (l.work.events k).polling) [
  | inl p ↦ some_eq (rw p at e)
  | inr p ↦ none_ne (rw p at e)
]
make_lem tid (removes k) l l' e = some_eq e
make_lem tid (times t) l l' e = some_eq e
make_lem tid (runs f) l l' e = some_eq e

module _ (tid : ℕ) where
  run_own :
      (t : Task) (l : Loop)
      → is_in_loop_thread tid l ≡ true
      → run_in_loop tid t l ≡ record l { work = run_task t l.work }
  run_own t l o = rw o

  run_other :
      (t : Task) (l : Loop)
      → is_in_loop_thread tid l ≡ false
      → run_in_loop tid t l
        ≡ record l { pending = l.pending ++ t ∷ []; wakeup_count = suc l.wakeup_count }
  run_other t l o = rw o

  -- Calls by the loop's thread.
  own :
      (cs : List Call) (l l' : Loop)
      → is_in_loop_thread tid l ≡ true
      → make_all tid cs l ≡ some l'
      → record l { work = run_tasks (tasks_of cs) l.work } ≡ l'
  unfolding make_all tasks_of run_tasks
  own [] l l' o e = some_eq e
  own (c ∷ cs) l l' o e =
      let b : (l₁ : Loop) × (make tid c l ≡ some l₁) × (make_all tid cs l₁ ≡ some l') =
        bind_some (make tid c l) (make_all tid cs) l' e in
      let q : record l { work = run_task (task_of c) l.work } ≡ b.0 =
        sym (run_own (task_of c) l o) ∙ make_lem tid c l b.0 b.1 in
      own cs (record l { work = run_task (task_of c) l.work }) l' o (rw q (b.2))

  -- Calls by another thread.
  other :
      (cs : List Call) (l l' : Loop)
      → is_in_loop_thread tid l ≡ false
      → make_all tid cs l ≡ some l'
      → record l { pending = l.pending ++ tasks_of cs; wakeup_count = length cs + l.wakeup_count }
        ≡ l'
  unfolding make_all tasks_of
  other [] l l' o e =
      let z : 0 + l.wakeup_count ≡ l.wakeup_count = omega arith in
      rw (append-nil l.pending) (rw z (some_eq e))
  other (c ∷ cs) l l' o e =
      let b : (l₁ : Loop) × (make tid c l ≡ some l₁) × (make_all tid cs l₁ ≡ some l') =
        bind_some (make tid c l) (make_all tid cs) l' e in
      let q : record l { pending = l.pending ++ task_of c ∷ []; wakeup_count = suc l.wakeup_count }
          ≡ b.0 =
        sym (run_other (task_of c) l o) ∙ make_lem tid c l b.0 b.1 in
      let z : suc (length cs) + l.wakeup_count ≡ length cs + suc l.wakeup_count = omega arith in
      let a : l.pending ++ task_of c ∷ tasks_of cs ≡ (l.pending ++ task_of c ∷ []) ++ tasks_of cs =
        sym (append_assoc l.pending (task_of c ∷ []) (tasks_of cs)) in
      rw z (
        rw a (
          other cs
            (record l { pending = l.pending ++ task_of c ∷ []; wakeup_count = suc l.wakeup_count })
            l' o (rw q b.2)))

run_tasks-append :
    (ts us : List Task) (w : Work) → run_tasks (ts ++ us) w ≡ run_tasks us (run_tasks ts w)
unfolding run_tasks
run_tasks-append [] us w = refl
run_tasks-append (t ∷ ts) us w = run_tasks-append ts us (run_task t w)

-- Calls that another thread makes, one after another, change nothing but the list of pending tasks
-- and the counter of the eventfd, by one for each call. When the loop's thread then runs doPending,
-- the loop is as if that thread had made the same calls itself after its doPending, but for the
-- counter. Both rows of calls fail no assert.
pub do_pending-make_all :
    (tid : ℕ) (cs : List Call) (l posted direct : Loop)
    → is_in_loop_thread tid l ≡ false
    → make_all tid cs l ≡ some posted
    → make_all l.thread_id cs (do_pending l) ≡ some direct
    → do_pending posted ≡ record direct { wakeup_count = length cs + l.wakeup_count }
do_pending-make_all tid cs l posted direct o e f =
    let own_thread : (l.thread_id == l.thread_id) ≡ true = ground arith in
    let p : record l {
      pending = l.pending ++ tasks_of cs;
      wakeup_count = length cs + l.wakeup_count;
    }
        ≡ posted =
      other tid cs l posted o e in
    let d : record l { work = run_tasks (tasks_of cs) (run_tasks l.pending l.work); pending = [] }
        ≡ direct =
      own l.thread_id cs (do_pending l) direct own_thread f in
    rw (← p) (rw (← d) (rw (run_tasks-append l.pending (tasks_of cs) l.work)))
