-- ===== src/Circular/Defs.antt =====
-- src/log/-CircularBuffer.h and -CircularBuffer.cpp: the class CircularBuffer. A buffer is the list
-- of its bytes. The mutex makes each function one step.
use generic_server.Prelude.{
  ℕ, suc, Bool, true, false, Option, none, some, List, [], length, set, replicate, ◌==◌,
  if◌then◌else◌,
}

pub record Circular : Type 0 where
  pub queue : List (List ℕ)
  pub head : ℕ
  pub tail : ℕ
  pub stopped : Bool

-- The constructor, for BUFFER_NUM buffers.
abbrev pub init : ℕ → Circular
init num = record { queue = replicate num []; head = 0; tail = 0; stopped = false }

-- `_inc`: BUFFER_NUM is the length of the array.
abbrev pub inc : ℕ → Circular → ℕ
inc i c = if suc i == length c.queue then 0 else suc i

abbrev pub is_full : Circular → Bool
is_full c = inc c.tail c == c.head

abbrev pub is_empty : Circular → Bool
is_empty c = c.head == c.tail

-- What a call does that may wait: it returns, it waits, or it returns because of `stop`.
pub data Outcome : Type 0 where
  done : Outcome
  waits : Outcome
  ends : Outcome

unfoldable pub push : Circular → Outcome × Circular
push c =
    if c.stopped
    then (ends, c)
    else if is_full c
    then (waits, c)
    else (done, record c { tail = inc c.tail c })

unfoldable pub push_nowait : Circular → Bool × Circular
push_nowait c = if is_full c then (false, c) else (true, record c { tail = inc c.tail c })

-- A pointer to a buffer is its index: the one that `tail` gives, and the writing through it.
abbrev pub tail_buffer : Circular → ℕ
tail_buffer c = c.tail

abbrev pub fill : List ℕ → Circular → Circular
fill b c = record c { queue = set c.queue (tail_buffer c) b }

-- pop gives the pointer to the buffer at the head.
unfoldable pub pop : Circular → Outcome × Option ℕ × Circular
pop c =
    if c.stopped
    then (ends, none, c)
    else if is_empty c
    then (waits, none, c)
    else (done, some c.head, record c { head = inc c.head c })

-- pop_nowait only looks.
abbrev pub pop_nowait : Circular → ℕ
pop_nowait c = c.head

abbrev pub stop : Circular → Circular
stop c = record c { stopped = true }
