-- ===== src/Echo/Defs.antt =====
-- example/EchoServer.h: EchoServer, whose idle connections are known by the numbers of their
-- entries, and what one of its loops does with them. `none` is abort, or a null pointer that is
-- used.
use generic_server.Prelude.{
  ℕ, Bool, false, true, ◌||◌, Option, none, some, List, [], ◌∷◌, ◌++◌, ◌==◌, if◌then◌else◌, ◌>>=◌,
}
use generic_server.Prelude.Int.{ℤ}
use generic_server.Wheel.{Entry, Wheel, entry}
use generic_server.Wheel
use generic_server.Idle.{IdleConnections, is_alive}
use generic_server.Idle
use generic_server.Server.{Server, Target, all_loops}
use generic_server.Server
use generic_server.Connection.{Site}
use generic_server.Connection

-- The server, m_idleConnsMap, and the timers that loops were given: the callback with the number
-- `tid` is IdleConnections::tick on what the map had for `tid`.
pub record EchoServer : Type 0 where
  pub server : Server
  pub idle_conns_map : List (ℕ × IdleConnections)
  pub timers : List (Target × Entry)

unfoldable pub find : ℕ → List (ℕ × IdleConnections) → Option IdleConnections
find tid [] = none
find tid (p ∷ m) =
    let rest : Option IdleConnections = find tid m in if p.0 == tid then some p.1 else rest

abbrev pub is_end : Option IdleConnections → Bool
is_end none = true
is_end (some c) = false

-- A key without a value gets one.
unfoldable pub ensure : ℕ → List (ℕ × IdleConnections) → List (ℕ × IdleConnections)
ensure tid m = if is_end (find tid m) then m ++ (tid, Idle.init) ∷ [] else m

unfoldable pub replace :
    ℕ → IdleConnections → List (ℕ × IdleConnections) → List (ℕ × IdleConnections)
replace tid c [] = []
replace tid c (p ∷ m) =
    let rest : List (ℕ × IdleConnections) = replace tid c m in
    if p.0 == tid then (tid, c) ∷ m else p ∷ rest

abbrev pub period : ℕ
period = 1000

-- One turn of the constructor's loop over the loops.
unfoldable pub add_loop : (Target → ℕ) → Target → EchoServer → EchoServer
add_loop thread_id t e = record e {
  idle_conns_map = ensure (thread_id t) e.idle_conns_map;
  timers = e.timers ++ (t, entry (thread_id t) period true) ∷ [];
}

unfoldable pub add_loops : (Target → ℕ) → List Target → EchoServer → EchoServer
add_loops thread_id [] e = e
add_loops thread_id (t ∷ ts) e = add_loops thread_id ts (add_loop thread_id t e)

-- The constructor; `thread_id` is what getThreadId gives for each loop at this time.
unfoldable pub construct : ℕ → Bool → ℤ → (Target → ℕ) → Option EchoServer
construct hardware bound workers thread_id = do
  s ← Server.construct bound
  s' ← Server.init hardware workers s
  some (
      add_loops thread_id (all_loops s') (record { server = s'; idle_conns_map = []; timers = [] }))

-- `m_idleConnsMap[threadId]->f()`.
unfoldable pub change : ℕ → (IdleConnections → IdleConnections) → EchoServer → Option EchoServer
change tid f e = do
  c ← find tid e.idle_conns_map
  some (record e { idle_conns_map = replace tid (f c) e.idle_conns_map })

unfoldable pub set_idle_conn : ℕ → ℕ → EchoServer → Option EchoServer
set_idle_conn k tid e = change tid (Idle.add k) e

unfoldable pub on_connected : ℕ → ℕ → EchoServer → Option EchoServer
on_connected k tid e =
    set_idle_conn k tid (record e { idle_conns_map = ensure tid e.idle_conns_map })

-- `ent.lock()` finds the entry.
unfoldable pub is_locked : ℕ → List (ℕ × IdleConnections) → Bool
is_locked k [] = false
is_locked k (p ∷ m) = is_alive k p.1.conns || is_locked k m

unfoldable pub update_idle_conn : ℕ → ℕ → EchoServer → Option EchoServer
update_idle_conn k tid e =
    if is_locked k e.idle_conns_map then change tid (Idle.update k) e else some e

unfoldable pub on_message : ℕ → ℕ → EchoServer → Site → Option (EchoServer × Site)
on_message k tid e s = do
  e' ← update_idle_conn k tid e
  s' ← Connection.on_message tid s
  some (e', s')

-- What a loop's thread works on: the wheel of the loop, and its idle connections.
pub record Worker : Type 0 where
  pub wheel : Wheel
  pub idle : IdleConnections

-- The callbacks that a tick of the wheel runs; `tid` is the one of the idle connections.
unfoldable pub run_callbacks : ℕ → List ℕ → IdleConnections → IdleConnections
run_callbacks tid [] c = c
run_callbacks tid (f ∷ fs) c = run_callbacks tid fs (if f == tid then (Idle.tick c).1 else c)

-- The timer of the loop expires: SysTimer calls TimingWheel::tick.
unfoldable pub expire : ℕ → Worker → Option Worker
expire tid s = do
  (w, fired) ← Wheel.tick s.wheel
  some (record { wheel = w; idle = run_callbacks tid fired s.idle })
