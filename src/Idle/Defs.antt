-- ===== src/Idle/Defs.antt =====
-- src/net/IdleConnections.h and IdleConnections.cpp. An entry is known by a number; it lives as
-- long as some slot holds it, since the slots are all that shares it.
use generic_server.Prelude.{
  ℕ, ◌+◌, ◌==◌, Bool, false, ◌||◌, List, [], ◌∷◌, ◌++◌, if◌then◌else◌, leb, get_or, set, replicate,
}

abbrev pub slot_size : ℕ
slot_size = 60

pub record IdleConnections : Type 0 where
  pub conns : List (List ℕ)
  pub cur : ℕ

-- The constructor IdleConnections().
abbrev pub init : IdleConnections
init = record { conns = replicate slot_size []; cur = 0 }

abbrev pub slot : ℕ → IdleConnections → List ℕ
slot i c = get_or c.conns i []

-- add makes an entry and puts it into the current slot.
unfoldable pub add : ℕ → IdleConnections → IdleConnections
add k c = record c { conns = set c.conns c.cur (slot c.cur c ++ k ∷ []) }

unfoldable pub update : ℕ → IdleConnections → IdleConnections
update k c = record c { conns = set c.conns c.cur (slot c.cur c ++ k ∷ []) }

unfoldable pub is_listed : ℕ → List ℕ → Bool
is_listed k [] = false
is_listed k (j ∷ js) = k == j || is_listed k js

-- `lock` on the weak pointer to the entry finds it.
unfoldable pub is_alive : ℕ → List (List ℕ) → Bool
is_alive k [] = false
is_alive k (js ∷ ls) = is_listed k js || is_alive k ls

-- The entries of a list, each once, that no slot holds.
unfoldable pub expired : List ℕ → List (List ℕ) → List ℕ
expired [] ls = []
expired (j ∷ js) ls =
    let rest : List ℕ = expired js ls in if is_alive j ls || is_listed j js then rest else j ∷ rest

abbrev pub next : ℕ → ℕ
next i = if leb slot_size (i + 1) then 0 else i + 1

-- What tick clears.
unfoldable pub cleared : IdleConnections → IdleConnections
cleared c = record { conns = set c.conns (next c.cur) []; cur = next c.cur }

-- tick, and the entries that it destroys: their connections are shut down.
unfoldable pub tick : IdleConnections → List ℕ × IdleConnections
tick c = (expired (slot (next c.cur) c) (cleared c).conns, cleared c)

-- EchoServer::updateIdleConn: only an entry that still lives is updated.
unfoldable pub update_idle_conn : ℕ → IdleConnections → IdleConnections
update_idle_conn k c = if is_alive k c.conns then update k c else c
