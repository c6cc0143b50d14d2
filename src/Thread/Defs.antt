-- ===== src/Thread/Defs.antt =====
-- src/-Thread.h: the class Thread. What is asked of pthread is a list of calls; `none` is abort.
use generic_server.Prelude.{
  ℕ, Bool, true, false, Option, none, some, List, [], ◌∷◌, ◌++◌, ◌==◌, if◌then◌else◌, ◌>>=◌,
}

-- pthread_create, with the number that it gives the thread, and pthread_join of a number.
pub data Asked : Type 0 where
  creates : ℕ → Asked
  joins : ℕ → Asked

pub record Thread : Type 0 where
  pub started : Bool
  pub joined : Bool
  pub pthread_id : ℕ
  pub asked : List Asked

-- The constructor.
abbrev pub construct : Thread
construct = record { started = false; joined = false; pthread_id = 0; asked = [] }

-- `ret` and `id` are what pthread_create returns and stores.
unfoldable pub start : ℕ → ℕ → Thread → Option Thread
start ret id t =
    let u : Thread = record t {
      started = true;
      pthread_id = id;
      asked = t.asked ++ creates id ∷ [];
    } in
    if t.started then some t else if ret == 0 then some u else none

unfoldable pub join : ℕ → Thread → Option Thread
join ret t =
    let u : Thread = record t { joined = true; asked = t.asked ++ joins t.pthread_id ∷ [] } in
    if t.joined then some t else if ret == 0 then some u else none

-- The destructor, without the data that it frees.
abbrev pub finish : ℕ → Thread → Option Thread
finish ret t = join ret t

-- What an owner does with a thread; pthread_create stores the number given and succeeds, as does
-- pthread_join.
pub data Use : Type 0 where
  starts : ℕ → Use
  waits : Use

abbrev pub use_thread : Use → Thread → Option Thread
use_thread (starts id) t = start 0 id t
use_thread waits t = join 0 t

unfoldable pub run : List Use → Thread → Option Thread
run [] t = some t
run (u ∷ us) t = do t' ← use_thread u t; run us t'
