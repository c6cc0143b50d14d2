-- ===== src/Pool/Defs.antt =====
-- src/reactor/EventLoopThreadPool.h and EventLoopThreadPool.cpp. A loop is known by a number; an
-- access outside m_loops is a fault, `none`.
use generic_server.Prelude.{
  ℕ, zero, suc, ◌+◌, ◌-◌, ◌%◌, ◌^◌, Bool, false, true, Option, none, some, List, [], ◌∷◌, length,
  ltb, leb, if◌then◌else◌, get_elem?, replicate, ◌>>=◌,
}
use generic_server.Prelude.Int.{ℤ, pos, negsuc}

-- EventLoopThreadPool: its loops, and for the thread of each whether it runs and was told to stop.
pub record Pool : Type 0 where
  pub nthreads : ℕ
  pub next_loop : ℕ
  pub loops : List ℕ
  pub running : List Bool
  pub quit : List Bool

unfoldable pub count_up : ℕ → ℕ → List ℕ
count_up n zero = []
count_up n (suc k) = n ∷ count_up (suc n) k

-- The constructor EventLoopThreadPool(num).
abbrev pub init : ℕ → Pool
init num = record {
  nthreads = num;
  next_loop = 0;
  loops = count_up 0 num;
  running = replicate num false;
  quit = replicate num false;
}

-- start returns when each thread can be joined.
abbrev pub start : Pool → Pool
start p = record p { running = replicate (length p.running) true }

abbrev pub stop : Pool → Pool
stop p = record p { quit = replicate (length p.quit) true }

-- join returns when the threads have ended: none runs any more.
abbrev pub join : Pool → Pool
join p = record p { running = replicate (length p.running) false }

-- The destructor.
abbrev pub finish : Pool → Pool
finish p = join (stop p)

-- `m_loops.size() - 1` on unsigned numbers of 64 bits.
abbrev pub last_loop : Pool → ℕ
last_loop p = (length p.loops + 2 ^ 64 - 1) % 2 ^ 64

abbrev pub advanced : Pool → ℕ
advanced p = if ltb p.next_loop (last_loop p) then p.next_loop + 1 else 0

unfoldable pub get_next_loop : Pool → Option (ℕ × Pool)
get_next_loop p = do
  l ← get_elem? p.loops (advanced p)
  some (l, record p { next_loop = advanced p })

-- operator[]: out of range it reads where m_loops ends.
unfoldable pub at : ℤ → Pool → Option ℕ
at (negsuc n) p = none
at (pos n) p = if leb p.nthreads n then none else get_elem? p.loops n
