-- ===== src/Circular/Items.antt =====
-- src/log/-CircularBuffer.cpp: the buffers from the head to the tail, round the end of the array.
use generic_server.Prelude.{
  ℕ, zero, suc, ◌+◌, ◌-◌, ◌<◌, ◌≡◌, ◌≢◌, refl, sym, ap, ap₂, ◌∙◌, false, List, [], ◌∷◌, ◌++◌,
  length, get_or, set, length-set, length-append, ltb, leb, if◌then◌else◌, arith, get_or-set_ne,
}
use generic_server.Circular.Defs.{Circular}

pub record IsValid (c : Circular) : Type 0 where
  pub head_in : c.head < length c.queue
  pub tail_in : c.tail < length c.queue
  pub runs : c.stopped ≡ false

abbrev pub wrap : ℕ → ℕ → ℕ
wrap num i = if ltb i num then i else i - num

-- k buffers from index h on, oldest first.
unfoldable pub items : List (List ℕ) → ℕ → ℕ → List (List ℕ)
items q h zero = []
items q h (suc k) = items q h k ++ get_or q (wrap (length q) (h + k)) [] ∷ []

abbrev pub count : Circular → ℕ
count c = if leb c.head c.tail then c.tail - c.head else c.tail + length c.queue - c.head

-- The buffers that wait, oldest first.
abbrev pub contents : Circular → List (List ℕ)
contents c = items c.queue c.head (count c)

pub length-items : (q : List (List ℕ)) (h k : ℕ) → length (items q h k) ≡ k
unfolding items
length-items q h zero = refl
length-items q h (suc k) = omega (
  arith,
  length-items q h k,
  length-append (items q h k) (get_or q (wrap (length q) (h + k)) [] ∷ []),
)

pub items-cons :
    (q : List (List ℕ)) (h k : ℕ)
    → h < length q
    → k < length q
    → items q h (suc k) ≡ get_or q h [] ∷ items q (wrap (length q) (suc h)) k
unfolding items
items-cons q h zero a b =
    let e : wrap (length q) (h + 0) ≡ h = ground arith in ap (λ (i : ℕ). get_or q i [] ∷ []) e
items-cons q h (suc k) a b =
    let n : ℕ = length q in
    let e : wrap n (h + suc k) ≡ wrap n (wrap n (suc h) + k) = ground arith in
    ap₂ (λ (l : List (List ℕ)) (i : ℕ). l ++ get_or q i [] ∷ []) (items-cons q h k a (omega arith))
      e

-- Writing behind the items leaves them as they are.
pub items-set :
    (q : List (List ℕ)) (h k t : ℕ) (x : List ℕ)
    → ((j : ℕ) → j < k → wrap (length q) (h + j) ≢ t)
    → items (set q t x) h k ≡ items q h k
unfolding items
items-set q h zero t x n = refl
items-set q h (suc k) t x n =
    let i : ℕ = wrap (length q) (h + k) in
    ap₂ (λ (l : List (List ℕ)) (b : List ℕ). l ++ b ∷ [])
      (items-set q h k t x (λ j h. n j (omega arith)))
      (ap (λ (m : ℕ). get_or (set q t x) (wrap m (h + k)) []) (length-set q t x)
        ∙ get_or-set_ne q t i x [] (λ e. n k (omega arith) (sym e)))
