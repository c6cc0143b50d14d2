-- ===== src/Thread/Tests.antt =====
-- src/-Thread.h at concrete inputs.
use generic_server.Prelude.{◌≡◌, refl, Option, none, some, List, [], ◌∷◌, true, ◌>>=◌}
use generic_server.Thread.Defs.{
  Thread, construct, creates, joins, start, join, finish, Use, starts, waits, run,
}
use generic_server.Thread.Life.{done, start-once}

abbrev uses : List Use
uses = waits ∷ starts 9 ∷ waits ∷ []

start-once_example : (run (starts 7 ∷ uses) construct >>= finish 0) ≡ some (done 7)
start-once_example = start-once 7 uses

-- Joined before it is started, it asks for the thread 0, and the thread that it starts is not
-- joined.
waits_first :
    (run (waits ∷ starts 7 ∷ []) construct >>= finish 0)
    ≡ some
        (record { started = true; joined = true; pthread_id = 7; asked = joins 0 ∷ creates 7 ∷ [] })
unfolding run start join
waits_first = refl

-- The destructor of a thread that was not started aborts when pthread_join does not know the thread
-- 0.
not_started : ◌≡◌ {A = Option Thread} (finish 3 construct) none
unfolding join
not_started = refl
