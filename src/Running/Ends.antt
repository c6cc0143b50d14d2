-- ===== src/Running/Ends.antt =====
-- src/reactor/EventLoop.cpp (loop) and EventLoopThread.cpp (loop_thread): a loop that is asked to
-- end.
use generic_server.Prelude.{
  ℕ, ◌≡◌, ◌≢◌, refl, sym, ap, ◌∙◌, Bool, true, false, Option, none, some, List, [], ◌∷◌, ◌++◌,
  append-nil, append_assoc, if◌then◌else◌, ◌>>=◌,
}
use mathlib.Core.Path.{subst}
use generic_server.Loop.{Loop, broken}
use generic_server.Running.Defs.{calls, Round, loop, loop_thread, set_thread_id}
use generic_server.Running.Steps.{asked, asks_end, Foreign, Is, IsQuiet, calls_lem, turn_lem}

-- The functions asked for in a row of rounds.
unfoldable pub asked_all : List Round → List ℕ
asked_all [] = []
asked_all (r ∷ rs) = (asked r.before ++ asked r.during) ++ asked_all rs

-- A round in which epoll_wait does not fail, other threads call, and none asks for the end.
pub record Works (own : ℕ) (r : Round) : Type 0 where
  pub polls : r.answer ≢ broken
  pub before_foreign : Foreign own r.before
  pub during_foreign : Foreign own r.during
  pub goes_on : asks_end r.before ≡ false
  pub goes_on_during : asks_end r.during ≡ false

pub data AllWork (own : ℕ) : List Round → Type 0 where
  no_round : AllWork own []
  works_too : {r : Round} {rs : List Round} → Works own r → AllWork own rs → AllWork own (r ∷ rs)

not_yet : {b : Bool} (x : Option Loop) {y : Option Loop} → b ≡ false → (if b then x else y) ≡ y
not_yet x e = rw e refl

module _ (handle : ℕ → Loop → Option Loop) (quiet : IsQuiet handle) {own : ℕ} where
  -- At the end of the loop.
  last_lem :
      {ran waits : List ℕ} {l : Loop} (last : Round) (rest : List Round)
      → Foreign own last.before
      → asks_end last.before ≡ true
      → Is own false ran waits l
      → (l' : Loop) × (loop handle (last ∷ rest) l ≡ some l')
        × Is own true ran (waits ++ asked last.before) l'
  unfolding loop
  last_lem {ran} {waits} {l} last rest g e s =
      let t : Is own true ran (waits ++ asked last.before) (calls last.before l) =
        subst (λ (b : Bool). Is own b ran (waits ++ asked last.before) (calls last.before l)) e
          (calls_lem g s) in
      (calls last.before l, rw t.ends refl, t)

  -- A round that works.
  round_lem :
      {r : Round} {ran : List ℕ} {l : Loop} (rs : List Round)
      → Works own r
      → Is own false ran [] l
      → (m : Loop) × (loop handle (r ∷ rs) l ≡ loop handle rs m)
        × Is own false (ran ++ (asked r.before ++ asked r.during)) [] m
  unfolding loop
  round_lem {r} {ran} {l} rs w s =
      let t : Is own false ran (asked r.before) (calls r.before l) =
        subst (λ (b : Bool). Is own b ran (asked r.before) (calls r.before l)) w.goes_on
          (calls_lem w.before_foreign s) in
      let (m, e, u) = turn_lem handle quiet r w.polls w.during_foreign t in
      (
        m,
        not_yet _ t.ends ∙ ap (λ (o : Option Loop). o >>= (λ n. loop handle rs n)) e,
        subst (λ (b : Bool). Is own b (ran ++ (asked r.before ++ asked r.during)) [] m)
            w.goes_on_during u,
      )

  loop-ends_from :
      {working : List Round} {ran : List ℕ} {l : Loop} (last : Round) (rest : List Round)
      → AllWork own working
      → Foreign own last.before
      → asks_end last.before ≡ true
      → Is own false ran [] l
      → (l' : Loop) × (loop handle (working ++ last ∷ rest) l ≡ some l')
        × Is own true (ran ++ asked_all working) (asked last.before) l'
  unfolding asked_all
  loop-ends_from {ran = ran} {l = l} last rest no_round g e s =
      let (l', f, t) = last_lem last rest g e s in
      (l', f, subst (λ (x : List ℕ). Is own true x (asked last.before) l') (sym (append-nil ran)) t)
  loop-ends_from {ran = ran} {l = l} last rest (works_too {r} {rs} w ws) g e s =
      let (m, f, t) = round_lem (rs ++ last ∷ rest) w s in
      let (l', h, u) = loop-ends_from {l = m} last rest ws g e t in
      (
        l',
        f ∙ h,
        subst (λ (x : List ℕ). Is own true x (asked last.before) l')
            (append_assoc ran (asked r.before ++ asked r.during) (asked_all rs)) u,
      )

-- A loop that is not told to end and on which nothing waits runs in a thread, with no function
-- before and after it. Other threads ask it for functions in some rounds, in which epoll_wait does
-- not fail and no handler faults or asks for anything, and then, before a test of m_quit, for the
-- end. Then loop_thread returns, and all functions that were asked for until the last doPending ran
-- once, in order; those that were asked for after it wait and never run.
pub loop_thread-ends :
    (handle : ℕ → Loop → Option Loop) (own : ℕ) (l : Loop) {working : List Round} (last : Round)
    (rest : List Round)
    → IsQuiet handle
    → l.quit ≡ false
    → l.pending ≡ []
    → AllWork own working
    → Foreign own last.before
    → asks_end last.before ≡ true
    → (l' : Loop) × (loop_thread none none handle (working ++ last ∷ rest) own l ≡ some l')
      × Is own true (l.work.ran ++ asked_all working) (asked last.before) l'
unfolding loop_thread
loop_thread-ends handle own l last rest quiet q p ws g e =
    let s : Is own false l.work.ran [] (set_thread_id own l) = record {
      owned = refl;
      ends = q;
      has_run = refl;
      has_waiting = p;
    } in
    let (l', f, t) = loop-ends_from handle quiet last rest ws g e s in (l', rw f refl, t)
