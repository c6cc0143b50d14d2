-- ===== src/Echo/Loops.antt =====
-- example/EchoServer.h: the idle connections that the constructor makes, and those that it does
-- not.
use generic_server.Prelude.{
  ℕ, ◌≡◌, ◌≢◌, refl, sym, ◌∙◌, inl, inr, Option-cases, true, false, Option, none, some, List, [],
  ◌∷◌, ◌++◌, map, arith, ◌==◌, append_assoc, append-nil, none_ne, ◌⊎◌,
}
use mathlib.Core.Path.{subst}
use native.Mathlib.Decide.{ℕ_discrete}
use generic_server.Wheel.{Entry, entry}
use generic_server.Wheel.Loop.{All}
use generic_server.Idle.{IdleConnections}
use generic_server.Idle
use generic_server.Server.{Server, Target, all_loops}
use generic_server.Server
use generic_server.Prelude.Int.{ℤ}
use generic_server.Prelude.{Bool}
use generic_server.Echo.Defs.{
  EchoServer, find, ensure, replace, period, add_loop, add_loops, construct, change, set_idle_conn,
  on_connected,
}

abbrev Map : Type 0
Map = List (ℕ × IdleConnections)

find_here : (tid j : ℕ) (c : IdleConnections) (m : Map) → j ≡ tid → find tid ((j, c) ∷ m) ≡ some c
unfolding find
find_here tid j c m e = let b : (j == tid) ≡ true = ground (arith, e) in rw b refl

find_past :
    (tid j : ℕ) (c : IdleConnections) (m : Map) → j ≢ tid → find tid ((j, c) ∷ m) ≡ find tid m
unfolding find
find_past tid j c m n = let b : (j == tid) ≡ false = ground (arith, n) in rw b refl

find-append :
    (tid j : ℕ) (m : Map) (c : IdleConnections) → j ≢ tid → find tid (m ++ (j, c) ∷ []) ≡ find tid m
find-append tid j [] c n = find_past tid j c [] n
find-append tid j ((i, d) ∷ m) c n = elim (ℕ_discrete i tid) [
  | yes e ↦ find_here tid i d _ e ∙ sym (find_here tid i d m e)
  | no o ↦ find_past tid i d _ o ∙ find-append tid j m c n ∙ sym (find_past tid i d m o)
]

find-append_self :
    (tid : ℕ) (m : Map) (c : IdleConnections)
    → find tid m ≡ none
    → find tid (m ++ (tid, c) ∷ []) ≡ some c
find-append_self tid [] c h = find_here tid tid c [] refl
find-append_self tid ((i, d) ∷ m) c h = elim (ℕ_discrete i tid) [
  | yes e ↦ none_ne (sym h ∙ find_here tid i d m e)
  | no o ↦ find_past tid i d _ o ∙ find-append_self tid m c (sym (find_past tid i d m o) ∙ h)
]

find-replace :
    (tid : ℕ) (m : Map) (c d : IdleConnections)
    → find tid m ≡ some d
    → find tid (replace tid c m) ≡ some c
unfolding replace
find-replace tid [] c d h = unfold find in none_ne h
find-replace tid ((i, x) ∷ m) c d h = elim (ℕ_discrete i tid) [
  | yes e ↦ let b : (i == tid) ≡ true = ground (arith, e) in rw b (find_here tid tid c m refl)
  | no o ↦
      let b : (i == tid) ≡ false = ground (arith, o) in
      rw b (find_past tid i x _ o ∙ find-replace tid m c d (sym (find_past tid i x m o) ∙ h))
]

ensure_lem :
    (tid : ℕ) (m : Map)
    → (find tid m ≡ none) ⊎ (find tid m ≡ some Idle.init)
    → find tid (ensure tid m) ≡ some Idle.init
unfolding ensure
ensure_lem tid m (inl h) = rw h (find-append_self tid m Idle.init h)
ensure_lem tid m (inr h) = rw h h

ensure_other : (tid j : ℕ) (m : Map) → j ≢ tid → find tid (ensure j m) ≡ find tid m
unfolding ensure
ensure_other tid j m n = elim (Option-cases (find j m)) [
  | inl h ↦ rw h (find-append tid j m Idle.init n)
  | inr (c, h) ↦ rw h refl
]

abbrev HasOnlyNew : Map → Type 0
HasOnlyNew m = (tid : ℕ) → (find tid m ≡ none) ⊎ (find tid m ≡ some Idle.init)

ensure-HasOnlyNew : (j : ℕ) (m : Map) → HasOnlyNew m → HasOnlyNew (ensure j m)
ensure-HasOnlyNew j m h tid = elim (ℕ_discrete j tid) [
  | yes e ↦
      inr (
        subst (λ (i : ℕ). find tid (ensure i m) ≡ some Idle.init) (sym e)
          (ensure_lem tid m (h tid)))
  | no n ↦ rw (ensure_other tid j m n) (h tid)
]

module _ (id : Target → ℕ) where
  abbrev timer : Target → Target × Entry
  timer t = (t, entry (id t) period true)

  kept :
      (ts : List Target) (e : EchoServer) (tid : ℕ)
      → HasOnlyNew e.idle_conns_map
      → find tid e.idle_conns_map ≡ some Idle.init
      → find tid (add_loops id ts e).idle_conns_map ≡ some Idle.init
  unfolding add_loops add_loop
  kept [] e tid f h = h
  kept (t ∷ ts) e tid f h =
      let g = ensure-HasOnlyNew (id t) e.idle_conns_map f in
      kept ts _ tid g (elim (ℕ_discrete (id t) tid) [
        | yes k ↦
            subst (λ (i : ℕ). find tid (ensure i e.idle_conns_map) ≡ some Idle.init) (sym k)
              (ensure_lem tid e.idle_conns_map (inr h))
        | no n ↦ ensure_other tid (id t) e.idle_conns_map n ∙ h
      ])

  got :
      (ts : List Target) (e : EchoServer)
      → HasOnlyNew e.idle_conns_map
      → All (λ t. find (id t) (add_loops id ts e).idle_conns_map ≡ some Idle.init) ts
  unfolding add_loops add_loop
  got [] e f = tt
  got (t ∷ ts) e f =
      let g = ensure-HasOnlyNew (id t) e.idle_conns_map f in
      (kept ts _ (id t) g (ensure_lem (id t) e.idle_conns_map (f (id t))), got ts _ g)

  left_out :
      (ts : List Target) (e : EchoServer) (tid : ℕ)
      → All (λ t. id t ≢ tid) ts
      → find tid (add_loops id ts e).idle_conns_map ≡ find tid e.idle_conns_map
  unfolding add_loops add_loop
  left_out [] e tid h = refl
  left_out (t ∷ ts) e tid h = left_out ts _ tid h.1 ∙ ensure_other tid (id t) e.idle_conns_map h.0

  given :
      (ts : List Target) (e : EchoServer) → (add_loops id ts e).timers ≡ e.timers ++ map timer ts
  unfolding add_loops add_loop
  given [] e = sym (append-nil e.timers)
  given (t ∷ ts) e = given ts _ ∙ append_assoc e.timers (timer t ∷ []) (map timer ts)

  same_server : (ts : List Target) (e : EchoServer) → (add_loops id ts e).server ≡ e.server
  unfolding add_loops add_loop
  same_server [] e = refl
  same_server (t ∷ ts) e = same_server ts _

  -- No timer of these loops is for another number.
  none_for :
      (ts : List Target) (tid : ℕ)
      → All (λ t. id t ≢ tid) ts
      → All (λ (p : Target × Entry). p.1.callback ≢ tid) (map timer ts)
  none_for [] tid h = tt
  none_for (t ∷ ts) tid h = (h.0, none_for ts tid h.1)

-- What construct makes, given what the constructors of TCPServer and its init make of the server.
abbrev Constructed : (Target → ℕ) → Option EchoServer → Server → Type 0
Constructed id made s =
    (e : EchoServer) × (made ≡ some e)
    × (e.server ≡ s)
    × (e.timers ≡ map (timer id) (all_loops s))
    × All (λ t. find (id t) e.idle_conns_map ≡ some Idle.init) (all_loops s)

abbrev blank : Server → EchoServer
blank s = record { server = s; idle_conns_map = []; timers = [] }

only_new : HasOnlyNew []
unfolding find
only_new tid = inl refl

module _ (hardware : ℕ) (bound : Bool) (workers : ℤ) (id : Target → ℕ) (s s' : Server) where
  made :
      Server.construct bound ≡ some s
      → Server.init hardware workers s ≡ some s'
      → construct hardware bound workers id ≡ some (add_loops id (all_loops s') (blank s'))
  unfolding construct
  made p q = rw (p, q) refl

-- Once TCPServer is constructed and initialised, the constructor of EchoServer gives each of its
-- loops one timer of a second, which repeats, for the idle connections of the number that
-- getThreadId gave for the loop; and each such number has idle connections, new ones.
construct-Constructed :
    (hardware : ℕ) (bound : Bool) (workers : ℤ) (id : Target → ℕ) (s s' : Server)
    → Server.construct bound ≡ some s
    → Server.init hardware workers s ≡ some s'
    → Constructed id (construct hardware bound workers id) s'
construct-Constructed hardware bound workers id s s' p q =
    let ts : List Target = all_loops s' in
    (
      add_loops id ts (blank s'),
      made hardware bound workers id s s' p q,
      same_server id ts (blank s'),
      given id ts (blank s'),
      got id ts (blank s') only_new,
    )

-- What is left for a connection whose loop has the number `tid` by now.
abbrev pub NeverTicks : Option EchoServer → ℕ → ℕ → Type 0
NeverTicks made k tid =
    (e : EchoServer) × (made ≡ some e)
    × (e' : EchoServer) × (on_connected k tid e ≡ some e')
    × (find tid e'.idle_conns_map ≡ some (Idle.add k Idle.init))
    × All (λ (p : Target × Entry). p.1.callback ≢ tid) e'.timers

-- A loop whose thread has a number that getThreadId gave for no loop while EchoServer was
-- constructed, since the thread had not set it yet: a connection of this loop gets idle connections
-- of its own when it is connected, and no timer of any loop ticks these.
pub construct-NeverTicks :
    (hardware : ℕ) (bound : Bool) (workers : ℤ) (id : Target → ℕ) (s s' : Server) (k tid : ℕ)
    → Server.construct bound ≡ some s
    → Server.init hardware workers s ≡ some s'
    → All (λ t. id t ≢ tid) (all_loops s')
    → NeverTicks (construct hardware bound workers id) k tid
unfolding on_connected set_idle_conn change
construct-NeverTicks hardware bound workers id s s' k tid p q h =
    let ts : List Target = all_loops s' in
    let e : EchoServer = add_loops id ts (blank s') in
    let f = left_out id ts (blank s') tid h ∙ nothing in
    let g = ensure_lem tid e.idle_conns_map (inl f) in
    (
      e,
      made hardware bound workers id s s' p q,
      record e {
        idle_conns_map = replace tid (Idle.add k Idle.init) (ensure tid e.idle_conns_map);
      },
      rw g refl,
      find-replace tid (ensure tid e.idle_conns_map) (Idle.add k Idle.init) Idle.init g,
      subst (All (λ (p : Target × Entry). p.1.callback ≢ tid)) (sym (given id ts (blank s')))
          (none_for id ts tid h),
    )
  where
    nothing : find tid [] ≡ none
    nothing = unfold find in refl
