-- ===== src/Idle/Tests.antt =====
-- src/net/IdleConnections.cpp at concrete inputs.
use generic_server.Prelude.{◌≡◌, refl, true, List, [], ◌∷◌, replicate, arith}
use generic_server.Idle.Defs.{init, add, update, is_alive, is_listed, expired, cleared, tick}
use generic_server.Idle.Expiry.{Op, ticks, adds, run, count_ticks, IsValid, Leaves, idle-Expires}

init-IsValid : IsValid init
init-IsValid = omega arith

-- The entry 1 and, two ticks later, the entry 2; then 57 more ticks.
abbrev script : List Op
script = ticks ∷ ticks ∷ adds 2 ∷ replicate 57 ticks

script-Leaves : Leaves 1 script
script-Leaves = (λ e. omega (arith, e), tt)

late : is_alive 1 (run script (add 1 init)).conns ≡ true
unfolding run add tick cleared is_alive is_listed
late = refl

ends : (tick (run script (add 1 init))).0 ≡ 1 ∷ []
unfolding run add tick cleared expired is_alive is_listed
ends = refl

idle-Expires_example :
    (is_alive 1 (run script (add 1 init)).conns ≡ true)
    × (is_alive 1 (run script (update 1 init)).conns ≡ true)
unfolding count_ticks
idle-Expires_example = idle-Expires 1 script init init-IsValid script-Leaves
