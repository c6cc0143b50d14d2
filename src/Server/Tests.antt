-- ===== src/Server/Tests.antt =====
-- src/net/TCPServer.cpp at concrete inputs.
use generic_server.Prelude.{◌≡◌, refl, Option, none, some, List, [], ◌∷◌, ◌++◌, ◌>>=◌, arith}
use generic_server.Prelude.Int.{ℤ, pos, negsuc}
use generic_server.Server.Defs.{Server, binds, listens, worker, main, inits, init, all_loops}
use generic_server.Server.Spread.{accept_all, spread, find, last_of, accept_all-spread}

abbrev server : Server
server = record { pool = none; conn_map = []; actions = binds ∷ listens ∷ [] }

-- Three connections and an error.
abbrev answers : List ℤ
answers = pos 5 ∷ pos 6 ∷ negsuc 0 ∷ pos 7 ∷ []

goes_round :
    spread 2 1 answers
    ≡ inits (pos 5) (worker 1) ∷ inits (pos 6) (worker 0) ∷ inits (pos 7) (worker 1) ∷ []
unfolding spread
goes_round = refl

too_many : ◌≡◌ {A = Option Server} (init 2 (pos 2) server) none
unfolding init
too_many = refl

alone : all_loops server ≡ main ∷ []
unfolding all_loops
alone = refl

accept_all-spread_example :
    (t : Server) × ((init 4 (pos 2) server >>= accept_all answers) ≡ some t)
    × (t.actions ≡ (binds ∷ listens ∷ []) ++ spread 2 1 answers)
    × ((c : ℤ) → find c t.conn_map ≡ last_of c (spread 2 1 answers) (find c server.conn_map))
accept_all-spread_example =
    accept_all-spread 4 2 answers server (omega arith) (omega arith) (omega arith)
