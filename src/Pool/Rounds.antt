-- ===== src/Pool/Rounds.antt =====
-- src/reactor/EventLoopThreadPool.h (getNextLoop): the loops are handed out in turn.
use generic_server.Prelude.{
  ℕ, zero, suc, ◌+◌, ◌-◌, ◌^◌, ◌<◌, ◌≡◌, refl, sym, ap, ap₂, ◌∙◌, Option, some, List, [], ◌∷◌, ◌++◌,
  length, take, drop, take_all, take-append-take, length-drop, append-nil, get_elem?, ◌>>=◌, arith,
}
use generic_server.Pool.Defs.{Pool, get_next_loop, advanced, last_loop}

-- k calls of getNextLoop: the loops that they give.
next_loops : ℕ → Pool → Option (List ℕ × Pool)
next_loops zero p = some ([], p)
next_loops (suc k) p = do r ← get_next_loop p; s ← next_loops k r.1; some (r.0 ∷ s.0, s.1)

get_elem?-drop :
    (l : List ℕ) (i : ℕ)
    → i < length l
    → (x : ℕ) × (get_elem? l i ≡ some x) × (drop i l ≡ x ∷ drop (suc i) l)
get_elem?-drop [] i h = absurd (omega arith)
get_elem?-drop (x ∷ l) zero h = (x, refl, refl)
get_elem?-drop (x ∷ l) (suc i) h = get_elem?-drop l i (omega arith)

module _ (p : Pool) (w : length p.loops < 2 ^ 64) where
  abbrev from : ℕ → Pool
  from i = record p { next_loop = i }

  last_lem : 0 < length p.loops → last_loop p ≡ length p.loops - 1
  last_lem h = omega arith

  steps : (i : ℕ) → suc i < length p.loops → advanced (from i) ≡ suc i
  steps i h = ground (arith, last_lem (omega arith))

  wraps : (i : ℕ) → suc i ≡ length p.loops → advanced (from i) ≡ 0
  wraps i h = ground (arith, last_lem (omega arith))

  -- Calls that do not reach the end, and those after them.
  onward :
      (k i m : ℕ) (l : List ℕ) (q : Pool)
      → i + k < length p.loops
      → next_loops m (from (i + k)) ≡ some (l, q)
      → next_loops (k + m) (from i) ≡ some (take k (drop (suc i) p.loops) ++ l, q)
  unfolding next_loops get_next_loop
  onward zero i m l q h e =
      let z : i + 0 ≡ i = omega arith in
      let y : 0 + m ≡ m = omega arith in rw y (ap (λ (n : ℕ). next_loops m (from n)) (sym z) ∙ e)
  onward (suc k) i m l q h e =
      let (x, f, g) = get_elem?-drop p.loops (suc i) (omega arith) in
      let z : i + suc k ≡ suc i + k = omega arith in
      let y : suc k + m ≡ suc (k + m) = omega arith in
      let r : next_loops m (from (suc i + k)) ≡ some (l, q) =
        ap (λ (n : ℕ). next_loops m (from n)) (sym z) ∙ e in
      rw (y, steps i (omega arith), f, onward k (suc i) m l q (omega arith) r, g)

  -- The call at the end goes back to the first loop.
  turn :
      (i m : ℕ) (l : List ℕ) (q : Pool)
      → suc i ≡ length p.loops
      → next_loops m (from 0) ≡ some (l, q)
      → next_loops (suc m) (from i) ≡ some (take 1 p.loops ++ l, q)
  unfolding next_loops get_next_loop
  turn i m l q h e =
      let (x, f, g) = get_elem?-drop p.loops 0 (omega arith) in rw (wraps i h, f, e, ap (take 1) g)

  -- No call is left.
  ends : (i : ℕ) → i ≡ p.next_loop → next_loops 0 (from i) ≡ some ([], p)
  unfolding next_loops
  ends i e = ap (λ (n : ℕ). some ([], from n)) e

-- As many calls of getNextLoop as there are loops give each loop once, in turn: those after the
-- last one that was handed out, then those up to it; then the pool is as it was before. The pool
-- has a loop, fewer than 2 ^ 64 of them, and the last one that was handed out is one of them.
next_loops-rotate :
    (p : Pool)
    → p.next_loop < length p.loops
    → length p.loops < 2 ^ 64
    → next_loops (length p.loops) p
      ≡ some (drop (suc p.next_loop) p.loops ++ take (suc p.next_loop) p.loops, p)
next_loops-rotate p h w =
    let i : ℕ = p.next_loop in
    let n : ℕ = length p.loops in
    let a : ℕ = n - suc i in
    let tail : List ℕ = take i (drop 1 p.loops) ++ [] in
    let up : next_loops (i + 0) (from p w 0) ≡ some (tail, p) =
      onward p w i 0 0 [] p (omega arith) (ends p w (0 + i) (omega arith)) in
    let round : next_loops (suc (i + 0)) (from p w (i + a)) ≡ some (take 1 p.loops ++ tail, p) =
      turn p w (i + a) (i + 0) tail p (omega arith) up in
    let z : n ≡ a + suc (i + 0) = omega arith in
    let first : take a (drop (suc i) p.loops) ≡ drop (suc i) p.loops =
      take_all a (drop (suc i) p.loops) (omega (arith, length-drop (suc i) p.loops)) in
    let rest : take 1 p.loops ++ tail ≡ take (suc i) p.loops =
      ap (λ (l : List ℕ). take 1 p.loops ++ l) (append-nil (take i (drop 1 p.loops)))
      ∙ take-append-take 1 i p.loops
      ∙ ap (λ (k : ℕ). take k p.loops) {x = 1 + i} {y = suc i} (omega arith) in
    ap (λ (k : ℕ). next_loops k p) z
    ∙ onward p w a i (suc (i + 0)) (take 1 p.loops ++ tail) p (omega arith) round
    ∙ ap₂ (λ (x y : List ℕ). some (x ++ y, p)) first rest
