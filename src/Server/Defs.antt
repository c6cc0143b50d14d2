-- ===== src/Server/Defs.antt =====
-- src/net/Acceptor.cpp, and TCPServer.cpp but for the functions on one connection. What a server
-- has done to the system and to its loops is a list of actions; a loop is the main one or one of
-- the pool's, by its number. `none` is abort, or a fault.
use generic_server.Prelude.{
  ℕ, zero, suc, Bool, Option, none, some, List, [], ◌∷◌, ◌++◌, map, leb, if◌then◌else◌, ◌>>=◌,
}
use generic_server.Prelude.Int.{ℤ, pos, negsuc}
use generic_server.Connection.{is_key}
use generic_server.Pool
use generic_server.Pool.{Pool, get_next_loop}

pub data Target : Type 0 where
  main : Target
  worker : ℕ → Target

-- A call on the listening socket, and the `init` of a connection that is given to its loop.
pub data Action : Type 0 where
  sets_reuse_addr : Action
  sets_reuse_port : Action
  binds : Action
  listens : Action
  polls_listener : Action
  inits : ℤ → Target → Action

-- TCPServer: its pool and, for each descriptor in its map, the loop of the connection.
pub record Server : Type 0 where
  pub pool : Option Pool
  pub conn_map : List (ℤ × Target)
  pub actions : List Action

abbrev pub act : Action → Server → Server
act a s = record s { actions = s.actions ++ a ∷ [] }

-- The constructors of TCPServer and of its Acceptor; `bound` is that `::bind` succeeds.
unfoldable pub construct : Bool → Option Server
construct bound =
    if bound
    then some (record {
      pool = none;
      conn_map = [];
      actions = sets_reuse_addr ∷ sets_reuse_port ∷ binds ∷ polls_listener ∷ [];
    })
    else none

-- TCPServer::init with what hardware_concurrency gives.
unfoldable pub init : ℕ → ℤ → Server → Option Server
init hardware (pos zero) s = some s
init hardware (pos (suc n)) s =
    if leb hardware (suc n)
    then none
    else some (record s { pool = some (Pool.start (Pool.init (suc n))) })
init hardware (negsuc n) s = none

-- Acceptor::listen, which TCPServer::start calls; `heard` is that `::listen` succeeds.
abbrev pub listen : Bool → Server → Option Server
listen heard s = if heard then some (act listens s) else none

abbrev pub choose_loop : Option Pool → Option (Target × Option Pool)
choose_loop none = some (main, none)
choose_loop (some p) = do (n, q) ← get_next_loop p; some (worker n, some q)

-- `m_connMap[fd] = conn`.
unfoldable pub enter : ℤ → Target → List (ℤ × Target) → List (ℤ × Target)
enter fd t [] = (fd, t) ∷ []
enter fd t (p ∷ m) =
    let rest : List (ℤ × Target) = enter fd t m in if is_key fd p.0 then (fd, t) ∷ m else p ∷ rest

unfoldable pub on_new_connection : ℤ → Server → Option Server
on_new_connection fd s = do
  (t, pool) ← choose_loop s.pool
  some (record {
    pool = pool;
    conn_map = enter fd t s.conn_map;
    actions = s.actions ++ inits fd t ∷ [];
  })

-- Acceptor::accept with what `::accept4` returns.
unfoldable pub accept : ℤ → Server → Option Server
accept (pos n) s = on_new_connection (pos n) s
accept (negsuc n) s = some s

unfoldable pub all_loops : Server → List Target
all_loops s = elim s.pool [ none ↦ main ∷ [] | some p ↦ map worker p.loops ]

-- The destructor.
abbrev pub finish : Server → Server
finish s = elim s.pool [ none ↦ s | some p ↦ record s { pool = some (Pool.finish p) } ]
