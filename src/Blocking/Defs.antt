-- ===== src/Blocking/Defs.antt =====
-- src/BlockingQueue.h and BlockingQueue.cpp: the class BlockingQueue, with the threads that wait in
-- take. An item is a number. The mutex makes what a thread does between two waits one step.
use generic_server.Prelude.{
  ℕ, suc, ◌-◌, Option, none, some, List, [], ◌∷◌, ◌++◌, length, if◌then◌else◌, ◌==◌,
}

-- m_queue, the readers asleep in m_cond, and those that were woken and want the mutex again.
pub record Blocking : Type 0 where
  pub queue : List ℕ
  pub asleep : ℕ
  pub woken : ℕ

abbrev pub init : Blocking
init = record { queue = []; asleep = 0; woken = 0 }

-- notify_one wakes a reader, if one sleeps.
abbrev pub notify_one : Blocking → Blocking
notify_one b = if b.asleep == 0 then b else record b { asleep = b.asleep - 1; woken = suc b.woken }

unfoldable pub put : ℕ → Blocking → Blocking
put x b = notify_one (record b { queue = b.queue ++ x ∷ [] })

-- The rest of take with the mutex held: an item, or the reader sleeps.
abbrev pub take_front : List ℕ → Blocking → Option ℕ × Blocking
take_front [] b = (none, record b { asleep = suc b.asleep })
take_front (x ∷ xs) b = (some x, record b { queue = xs })

-- A reader calls take.
unfoldable pub take : Blocking → Option ℕ × Blocking
take b = take_front b.queue b

-- A reader that was woken tests again.
unfoldable pub retake : Blocking → Option ℕ × Blocking
retake b = take_front b.queue (record b { woken = b.woken - 1 })

abbrev pub size : Blocking → ℕ
size b = length b.queue
