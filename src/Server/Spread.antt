-- ===== src/Server/Spread.antt =====
-- src/net/Acceptor.cpp and TCPServer.cpp: how new connections are spread over the loops.
use generic_server.Prelude.{
  ◌-◌, ltb, ℕ, zero, suc, ◌+◌, ◌%◌, ◌<◌, ◌^◌, ◌≡◌, refl, sym, ap, ◌∙◌, false, true, none,
  Bool-cases, inl, inr, Option, some, List, [], ◌∷◌, ◌++◌, append-nil, append_assoc, length,
  get_elem?, leb, if◌then◌else◌, ◌>>=◌, arith,
}
use generic_server.Prelude.Int.{ℤ, pos, negsuc}
use native.Mathlib.Decide.{dec_lt}
use native.Mathlib.Nat.{mod-lt, mod-eq_of_lt, mod_self, suc-mod}
use generic_server.Connection.{is_key}
use generic_server.Pool
use generic_server.Pool.{Pool, last_loop, get_next_loop, advanced, count_up}
use generic_server.Server.Defs.{
  Target, worker, Action, inits, Server, init, accept, on_new_connection, enter,
}

-- A row of calls of accept.
unfoldable pub accept_all : List ℤ → Server → Option Server
accept_all [] s = some s
accept_all (fd ∷ fds) s = do s' ← accept fd s; accept_all fds s'

-- The i-th connection goes to the worker i modulo n.
unfoldable pub spread : ℕ → ℕ → List ℤ → List Action
spread n i [] = []
spread n i (pos fd ∷ fds) = inits (pos fd) (worker (i % n)) ∷ spread n (suc i) fds
spread n i (negsuc e ∷ fds) = spread n i fds

-- Looking a descriptor up in the map.
unfoldable pub find : ℤ → List (ℤ × Target) → Option Target
find fd [] = none
find fd (p ∷ m) = let rest : Option Target = find fd m in if is_key fd p.0 then some p.1 else rest

-- The loop that the last of the actions on a descriptor gives its connection, or else the old one.
unfoldable pub last_of : ℤ → List Action → Option Target → Option Target
last_of fd [] old = old
last_of fd (inits c t ∷ next) old = last_of fd next (if is_key fd c then some t else old)
last_of fd (_ ∷ next) old = last_of fd next old

key_eq : (a b : ℤ) → is_key a b ≡ true → a ≡ b
unfolding is_key
key_eq (pos a) (pos b) e = ap pos (ground (arith, e))
key_eq (negsuc a) (negsuc b) e = ap negsuc (ground (arith, e))
key_eq (pos a) (negsuc b) e = cc
key_eq (negsuc a) (pos b) e = cc

-- The map after an entry: the new loop under its descriptor, and the others as they were.
find-enter :
    (fd c : ℤ) (t : Target) (m : List (ℤ × Target))
    → find fd (enter c t m) ≡ (if is_key fd c then some t else find fd m)
unfolding find enter
find-enter fd c t [] = refl
find-enter fd c t (p ∷ m) = elim (Bool-cases (is_key c p.0)) [
  | inl e ↦ elim (Bool-cases (is_key fd c)) [
    | inl f ↦ rw (e, f) refl
    | inr f ↦
        let g : is_key fd p.0 ≡ false = ap (is_key fd) (sym (key_eq c p.0 e)) ∙ f in
        rw (e, f, g) refl
  ]
  | inr e ↦ elim (Bool-cases (is_key fd c)) [
    | inl f ↦
        let g : is_key fd p.0 ≡ false = ap (λ (k : ℤ). is_key k p.0) (key_eq fd c f) ∙ e in
        rw (e, g) (find-enter fd c t m ∙ rw f refl)
    | inr f ↦ rw (e, f, find-enter fd c t m, f) refl
  ]
]

length-count_up : (a k : ℕ) → length (count_up a k) ≡ k
unfolding count_up
length-count_up a zero = refl
length-count_up a (suc k) = ap suc (length-count_up (suc a) k)

get-count_up : (a k i : ℕ) → i < k → get_elem? (count_up a k) i ≡ some (a + i)
unfolding count_up
get-count_up a zero i h = absurd (omega arith)
get-count_up a (suc k) zero h = ap some (omega arith)
get-count_up a (suc k) (suc i) h = get-count_up (suc a) k i (omega arith) ∙ ap some (omega arith)

module _ (n : ℕ) (some_loop : 0 < n) (few : n < 2 ^ 64) where
  -- The pool after i connections.
  abbrev pool_after : ℕ → Pool
  pool_after i = let p : Pool = Pool.start (Pool.init n) in record p { next_loop = i % n }

  advanced_lem : (i : ℕ) → advanced (pool_after i) ≡ suc i % n
  advanced_lem i =
      let r : i % n < n = mod-lt i some_loop in
      let l : last_loop (pool_after i) ≡ n - 1 = omega (arith, length-count_up 0 n) in
      suc-mod-cases (i % n) r l ∙ sym (suc-mod i n)
    where
      suc-mod-cases :
          (j : ℕ)
          → j < n
          → last_loop (pool_after i) ≡ n - 1
          → (if ltb j (last_loop (pool_after i)) then j + 1 else 0) ≡ suc j % n
      suc-mod-cases j r l = elim (dec_lt (suc j) n) [
        | yes h ↦ ground (arith, l, mod-eq_of_lt h)
        | no h ↦
            let e : suc j ≡ n = omega arith in
            let z : suc j % n ≡ 0 = ap (λ (m : ℕ). m % n) e ∙ mod_self n in ground (arith, l, z)
      ]

  next_lem : (i : ℕ) → get_next_loop (pool_after i) ≡ some (suc i % n, pool_after (suc i))
  unfolding get_next_loop
  next_lem i =
      rw (advanced_lem i, get-count_up 0 n (suc i % n) (mod-lt (suc i) some_loop))
        (ap (λ (l : ℕ). some (l, pool_after (suc i))) (omega arith))

  accept_all_lem :
      (fds : List ℤ) (i : ℕ) (s : Server)
      → s.pool ≡ some (pool_after i)
      → (t : Server) × (accept_all fds s ≡ some t)
        × (t.actions ≡ s.actions ++ spread n (suc i) fds)
        × ((c : ℤ) → find c t.conn_map ≡ last_of c (spread n (suc i) fds) (find c s.conn_map))
  unfolding accept_all spread last_of accept on_new_connection
  accept_all_lem [] i s h = (s, refl, sym (append-nil s.actions), λ c. refl)
  accept_all_lem (negsuc e ∷ fds) i s h = accept_all_lem fds i s h
  accept_all_lem (pos fd ∷ fds) i s h =
      let s' : Server = record {
        pool = some (pool_after (suc i));
        conn_map = enter (pos fd) (worker (suc i % n)) s.conn_map;
        actions = s.actions ++ inits (pos fd) (worker (suc i % n)) ∷ [];
      } in
      let (t, e, a, m) = accept_all_lem fds (suc i) s' refl in
      (
        t,
        rw (h, next_lem i) e,
        a
            ∙ append_assoc s.actions (inits (pos fd) (worker (suc i % n)) ∷ [])
                (spread n (suc (suc i)) fds),
        λ c.
            m c
            ∙ ap (last_of c (spread n (suc (suc i)) fds))
                (find-enter c (pos fd) (worker (suc i % n)) s.conn_map),
      )

-- TCPServer::init with n workers, 0 < n below the number of processors and below 2 ^ 64, and then
-- any row of answers of accept4: the server aborts nowhere, the i-th connection, counted from 1, is
-- given to the worker i modulo n, an error is passed over, and looking a descriptor up in the map
-- then gives the loop of its last connection, or what the map held before if it had none.
pub accept_all-spread :
    (hardware n : ℕ) (fds : List ℤ) (s : Server)
    → 0 < n
    → n < hardware
    → n < 2 ^ 64
    → (t : Server) × ((init hardware (pos n) s >>= accept_all fds) ≡ some t)
      × (t.actions ≡ s.actions ++ spread n 1 fds)
      × ((c : ℤ) → find c t.conn_map ≡ last_of c (spread n 1 fds) (find c s.conn_map))
unfolding init
accept_all-spread hardware zero fds s p h w = absurd (omega arith)
accept_all-spread hardware (suc n) fds s p h w =
    let q : Pool = Pool.start (Pool.init (suc n)) in
    let s₁ : Server = record s { pool = some q } in
    let e : s₁.pool ≡ some (pool_after (suc n) p w 0) =
      ap (λ (k : ℕ). some (record q { next_loop = k })) {x = 0} {y = 0 % suc n} (omega arith) in
    let (t, f, a, m) = accept_all_lem (suc n) p w fds 0 s₁ e in
    let below : leb hardware (suc n) ≡ false = ground arith in (t, rw below f, a, m)
