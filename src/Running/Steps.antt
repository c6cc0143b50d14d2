-- ===== src/Running/Steps.antt =====
-- src/reactor/EventLoop.cpp (loop): what one turn does to the functions that other threads ask for.
use generic_server.Prelude.{
  ℕ, ◌≡◌, ◌≢◌, refl, sym, ap, ◌∙◌, Bool, true, false, ◌||◌, Option, some, List, [], ◌∷◌, ◌++◌, map,
  append-nil, append_assoc, ◌==◌,
}
use mathlib.Core.Path.{subst}
use generic_server.Loop.{
  Loop, Work, Task, user_task, Received, Waited, received, timeout, interrupted, broken,
  is_in_loop_thread, run_in_loop, run_task, run_tasks, store, poll, do_pending,
}
use generic_server.Running.Defs.{quit, Call, runs, quits, calls, Round, handle_all, turn}

-- The functions that are asked for, and whether the end is.
unfoldable pub asked : List Call → List ℕ
asked [] = []
asked (runs tid f ∷ cs) = f ∷ asked cs
asked (quits ∷ cs) = asked cs

unfoldable pub asks_end : List Call → Bool
asks_end [] = false
asks_end (runs tid f ∷ cs) = asks_end cs
asks_end (quits ∷ cs) = true

-- The calls of threads other than `own`.
pub data Foreign (own : ℕ) : List Call → Type 0 where
  no_call : Foreign own []
  runs_call :
      {tid f : ℕ} {cs : List Call}
      → (own == tid) ≡ false
      → Foreign own cs
      → Foreign own (runs tid f ∷ cs)
  quits_call : {cs : List Call} → Foreign own cs → Foreign own (quits ∷ cs)

-- The loop of the thread `own`: whether it is to end, the functions that ran and those that wait.
pub record Is (own : ℕ) (q : Bool) (ran waits : List ℕ) (l : Loop) : Type 0 where
  pub owned : l.thread_id ≡ own
  pub ends : l.quit ≡ q
  pub has_run : l.work.ran ≡ ran
  pub has_waiting : l.pending ≡ map user_task waits

map-append : (xs ys : List ℕ) → map user_task xs ++ map user_task ys ≡ map user_task (xs ++ ys)
map-append [] ys = refl
map-append (x ∷ xs) ys = ap (λ (l : List Task). user_task x ∷ l) (map-append xs ys)

run_lem :
    (own tid f : ℕ) {q : Bool} {ran waits : List ℕ} {l : Loop}
    → (own == tid) ≡ false
    → Is own q ran waits l
    → Is own q ran (waits ++ f ∷ []) (run_in_loop tid (user_task f) l)
run_lem own tid f {q} {ran} {waits} {l} d s =
    let other : is_in_loop_thread tid l ≡ false = ap (λ k. k == tid) s.owned ∙ d in
    rw other (record {
      owned = s.owned;
      ends = s.ends;
      has_run = s.has_run;
      has_waiting =
          ap (λ (p : List Task). p ++ user_task f ∷ []) s.has_waiting ∙ map-append waits (f ∷ []);
    })

or_false : (q : Bool) → (q || false) ≡ q
or_false true = refl
or_false false = refl

or_true : (q : Bool) → (q || true) ≡ true
or_true true = refl
or_true false = refl

quit_lem :
    {own : ℕ} {q : Bool} {ran waits : List ℕ} {l : Loop}
    → Is own q ran waits l
    → Is own true ran waits (quit l)
quit_lem s = record {
  owned = s.owned;
  ends = refl;
  has_run = s.has_run;
  has_waiting = s.has_waiting;
}

pub calls_lem :
    {own : ℕ} {cs : List Call} {q : Bool} {ran waits : List ℕ} {l : Loop}
    → Foreign own cs
    → Is own q ran waits l
    → Is own (q || asks_end cs) ran (waits ++ asked cs) (calls cs l)
unfolding calls asked asks_end
calls_lem {own} {q = q} {ran = ran} {waits = waits} {l = l} no_call s =
    subst (λ (b : Bool). Is own b ran (waits ++ []) l) (sym (or_false q))
      (subst (λ (w : List ℕ). Is own q ran w l) (sym (append-nil waits)) s)
calls_lem {own} {q = q} {ran = ran} {waits = waits} {l = l} (runs_call {tid} {f} {cs} d g) s =
    subst
      (λ (w : List ℕ). Is own (q || asks_end cs) ran w (calls cs (run_in_loop tid (user_task f) l)))
      (append_assoc waits (f ∷ []) (asked cs)) (calls_lem g (run_lem own tid f d s))
calls_lem {own} {q = q} {ran = ran} {waits = waits} {l = l} (quits_call {cs} g) s =
    subst (λ (b : Bool). Is own b ran (waits ++ asked cs) (calls cs (quit l))) (sym (or_true q))
      (calls_lem g (quit_lem s))

store-ran : (rs : Received) (w : Work) → (store rs w).ran ≡ w.ran
unfolding store
store-ran [] w = refl
store-ran (r ∷ rs) w = store-ran rs _

poll_lem :
    {own : ℕ} {q : Bool} {ran waits : List ℕ} {l : Loop} (a : Waited)
    → a ≢ broken
    → Is own q ran waits l
    → (l' : Loop) × (poll a l ≡ some l') × Is own q ran waits l'
unfolding poll
poll_lem {l = l} (received rs) n s = (
  _,
  refl,
  record {
    owned = s.owned;
    ends = s.ends;
    has_run = store-ran rs l.work ∙ s.has_run;
    has_waiting = s.has_waiting;
  },
)
poll_lem timeout n s = (
  _,
  refl,
  record { owned = s.owned; ends = s.ends; has_run = s.has_run; has_waiting = s.has_waiting },
)
poll_lem interrupted n s = (
  _,
  refl,
  record { owned = s.owned; ends = s.ends; has_run = s.has_run; has_waiting = s.has_waiting },
)
poll_lem broken n s = absurd (n refl)

run_tasks-ran : (fs : List ℕ) (w : Work) → (run_tasks (map user_task fs) w).ran ≡ w.ran ++ fs
unfolding run_tasks run_task
run_tasks-ran [] w = sym (append-nil w.ran)
run_tasks-ran (f ∷ fs) w = run_tasks-ran fs _ ∙ append_assoc w.ran (f ∷ []) fs

do_pending_lem :
    {own : ℕ} {q : Bool} {ran waits : List ℕ} {l : Loop}
    → Is own q ran waits l
    → Is own q (ran ++ waits) [] (do_pending l)
do_pending_lem {waits = waits} {l = l} s = record {
  owned = s.owned;
  ends = s.ends;
  has_run =
      ap (λ (p : List Task). (run_tasks p l.work).ran) s.has_waiting
      ∙ run_tasks-ran waits l.work
      ∙ ap (λ (r : List ℕ). r ++ waits) s.has_run;
  has_waiting = refl;
}

-- A handler may change the events, the timers and the poller.
pub record Kept (l l' : Loop) : Type 0 where
  pub same_thread : l'.thread_id ≡ l.thread_id
  pub same_quit : l'.quit ≡ l.quit
  pub same_ran : l'.work.ran ≡ l.work.ran
  pub same_pending : l'.pending ≡ l.pending

-- A handler that does not fault, asks for no function and not for the end.
abbrev pub IsQuiet : (ℕ → Loop → Option Loop) → Type 0
IsQuiet handle = (k : ℕ) (l : Loop) → (l' : Loop) × (handle k l ≡ some l') × Kept l l'

kept_lem :
    {own : ℕ} {q : Bool} {ran waits : List ℕ} {l l' : Loop}
    → Is own q ran waits l
    → Kept l l'
    → Is own q ran waits l'
kept_lem s k = record {
  owned = k.same_thread ∙ s.owned;
  ends = k.same_quit ∙ s.ends;
  has_run = k.same_ran ∙ s.has_run;
  has_waiting = k.same_pending ∙ s.has_waiting;
}

module _ (handle : ℕ → Loop → Option Loop) (quiet : IsQuiet handle) where
  handle_all_lem :
      {own : ℕ} {q : Bool} {ran waits : List ℕ} {l : Loop} (ks : List ℕ)
      → Is own q ran waits l
      → (l' : Loop) × (handle_all handle ks l ≡ some l') × Is own q ran waits l'
  unfolding handle_all
  handle_all_lem {l = l} [] s = (l, refl, s)
  handle_all_lem {l = l} (k ∷ ks) s =
      let (m, e, t) = quiet k l in
      let (l', f, u) = handle_all_lem {l = m} ks (kept_lem s t) in (l', rw e f, u)

  -- A turn runs all that waited and all that is asked for until its doPending.
  pub turn_lem :
      {own : ℕ} {q : Bool} {ran waits : List ℕ} {l : Loop} (r : Round)
      → r.answer ≢ broken
      → Foreign own r.during
      → Is own q ran waits l
      → (l' : Loop) × (turn handle r l ≡ some l')
        × Is own (q || asks_end r.during) (ran ++ (waits ++ asked r.during)) [] l'
  unfolding turn
  turn_lem r n g s =
      let (l₁, e, t) = poll_lem r.answer n s in
      let (l₂, f, u) = handle_all_lem l₁.active_events t in
      (do_pending (calls r.during l₂), rw (e, f) refl, do_pending_lem (calls_lem g u))
