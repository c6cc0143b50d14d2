-- ===== src/Thread/Life.antt =====
-- src/-Thread.h: what is asked of pthread over the life of a thread.
use generic_server.Prelude.{ℕ, ◌≡◌, refl, true, false, some, List, [], ◌∷◌, ◌>>=◌}
use generic_server.Thread.Defs.{
  creates, joins, Thread, construct, start, join, finish, Use, starts, waits, run,
}

-- A thread that was created with this number and not yet joined, or joined.
abbrev live : ℕ → Thread
live id = record { started = true; joined = false; pthread_id = id; asked = creates id ∷ [] }

abbrev pub done : ℕ → Thread
done id = record {
  started = true;
  joined = true;
  pthread_id = id;
  asked = creates id ∷ joins id ∷ [];
}

run-done : (id : ℕ) (us : List Use) → (run us (done id) >>= finish 0) ≡ some (done id)
unfolding run start join
run-done id [] = refl
run-done id (starts j ∷ us) = run-done id us
run-done id (waits ∷ us) = run-done id us

run-live : (id : ℕ) (us : List Use) → (run us (live id) >>= finish 0) ≡ some (done id)
unfolding run start join
run-live id [] = refl
run-live id (starts j ∷ us) = run-live id us
run-live id (waits ∷ us) = run-done id us

-- A thread that is started first is created once and joined once, with the number it was created
-- with, whatever its owner does with it afterwards until the destructor.
pub start-once :
    (id : ℕ) (us : List Use) → (run (starts id ∷ us) construct >>= finish 0) ≡ some (done id)
unfolding run start
start-once id us = run-live id us
