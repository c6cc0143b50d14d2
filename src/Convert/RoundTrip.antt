-- ===== src/Convert/RoundTrip.antt =====
-- src/Util.cpp (convert): the text reads back as the number.
use generic_server.Prelude.{
  ℕ, zero, suc, ◌+◌, ◌-◌, ◌*◌, ◌/◌, ◌%◌, ◌<◌, ◌≡◌, ◌≢◌, refl, sym, ap, ◌∙◌, true, false, Option,
  none, some, List, [], ◌∷◌, ◌++◌, length, drop, if◌then◌else◌, ◌==◌, leb, ◌>>=◌, ◌&&◌, arith,
  get_elem?, append_assoc, append-nil, length-append, Bool-cases, inl, inr,
}
use generic_server.Prelude.Int.{ℤ, pos, negsuc, pos_part, neg_part}
use generic_server.Convert.Defs.{
  convert, convert_loop, last_digit, tenth, is_zero, digits, fuel_for,
}
use mathlib.Core.List.{reverse, reverse-cons, reverse-append}

-- A decimal reader: digits only, the value so far first.
unfoldable pub read : List ℕ → ℕ → Option ℕ
read [] n = some n
read (c ∷ s) n =
    let rest : Option ℕ = read s (n * 10 + (c - b'0')) in
    if leb b'0' c && leb c b'9' then rest else none

-- At least one digit, behind a minus sign for the numbers below 0.
unfoldable pub read_int : List ℕ → Option ℤ
read_int [] = none
read_int (c ∷ s) =
    if c == b'-'
    then (do n ← read s 0; if n == 0 then none else some (negsuc (n - 1)))
    else (do n ← read (c ∷ s) 0; some (pos n))

abbrev size : ℤ → ℕ
size i = pos_part i + neg_part i

-- The characters of a text go up from a; or the first n of them go down.
abbrev Rises : ℕ → List ℕ → Type 0
Rises a [] = Unit {0}
Rises a (c ∷ s) = (c ≡ a) × Rises (a + 1) s

abbrev Falls : ℕ → ℕ → List ℕ → Type 0
Falls a zero s = Unit {0}
Falls a (suc n) [] = ⊥
Falls a (suc n) (c ∷ s) = (c ≡ a) × Falls (a - 1) n s

Rises-at : (a : ℕ) (s : List ℕ) (i : ℕ) → Rises a s → i < length s → get_elem? s i ≡ some (a + i)
Rises-at a [] i r h = absurd (omega arith)
Rises-at a (c ∷ s) zero r h = ap (λ (n : ℕ). some n) (omega (arith, r.0))
Rises-at a (c ∷ s) (suc i) r h =
    Rises-at (a + 1) s i r.1 (omega arith) ∙ ap (λ (n : ℕ). some n) (omega arith)

Falls-at : (a n : ℕ) (s : List ℕ) (i : ℕ) → Falls a n s → i < n → get_elem? s i ≡ some (a - i)
Falls-at a zero s i r h = absurd (omega arith)
Falls-at a (suc n) [] i r h = absurd r
Falls-at a (suc n) (c ∷ s) zero r h = ap (λ (n : ℕ). some n) (omega (arith, r.0))
Falls-at a (suc n) (c ∷ s) (suc i) r h =
    Falls-at (a - 1) n s i r.1 (omega arith) ∙ ap (λ (n : ℕ). some n) (omega arith)

get_elem?-drop : (k i : ℕ) (s : List ℕ) → get_elem? s (k + i) ≡ get_elem? (drop k s) i
get_elem?-drop zero i s = ap (get_elem? s) (omega arith)
get_elem?-drop (suc k) i [] = refl
get_elem?-drop (suc k) i (c ∷ s) =
    let e : suc k + i ≡ suc (k + i) = omega arith in rw e (get_elem?-drop k i s)

digit_at : (r : ℕ) → r < 10 → get_elem? digits (9 + r) ≡ some (b'0' + r)
digit_at r h = get_elem?-drop 9 r digits ∙ Rises-at b'0' (drop 9 digits) r (omega arith) h

digit_below : (r : ℕ) → r < 10 → get_elem? digits (9 - r) ≡ some (b'0' + r)
digit_below r h =
    Falls-at b'9' 10 digits (9 - r) (omega arith) (omega arith)
    ∙ ap (λ (n : ℕ). some n) (omega arith)

last_digit_lem : (i : ℤ) → last_digit i ≡ some (b'0' + size i % 10)
unfolding last_digit
last_digit_lem (pos n) = let z : n + 0 ≡ n = omega arith in rw z (digit_at (n % 10) (omega arith))
last_digit_lem (negsuc n) =
    let z : 0 + (n + 1) ≡ suc n = omega arith in rw z (digit_below (suc n % 10) (omega arith))

size-tenth : (i : ℤ) → size (tenth i) ≡ size i / 10
size-tenth (pos n) = omega arith
size-tenth (negsuc n) = ground arith

is_zero_lem : (i : ℤ) → is_zero i ≡ (size i == 0)
is_zero_lem (pos n) = ground arith
is_zero_lem (negsuc n) = ground arith

read_digit : (s : List ℕ) (n m : ℕ) → n ≡ m / 10 → read ((b'0' + m % 10) ∷ s) n ≡ read s m
unfolding read
read_digit s n m h = ground arith

-- The characters that the loop writes, and how they read back to front.
abbrev Written : ℕ → ℤ → Type 0
Written f i =
    (c : ℕ) × (cs : List ℕ) × (convert_loop f i ≡ some (c ∷ cs))
    × ((s : List ℕ) → read (reverse (c ∷ cs) ++ s) 0 ≡ read s (size i))

last_one : (i : ℤ) → is_zero (tenth i) ≡ true → 0 ≡ size i / 10
last_one i z = ground (arith, is_zero_lem (tenth i), size-tenth i)

shrinks : (i : ℤ) → is_zero (tenth i) ≡ false → size (tenth i) < size i
shrinks i z = ground (arith, is_zero_lem (tenth i), size-tenth i)

convert_loop_lem : (f : ℕ) (i : ℤ) → size i < f → Written f i
unfolding convert_loop
convert_loop_lem zero i h = absurd (omega arith)
convert_loop_lem (suc f) i h = elim (Bool-cases (is_zero (tenth i))) [
  | inl z ↦ (
    b'0' + size i % 10,
    [],
    rw (last_digit_lem i, z),
    λ s. read_digit s 0 (size i) (last_one i z),
  )
  | inr z ↦
      let (c, cs, e, r) = convert_loop_lem f (tenth i) (omega (arith, shrinks i z, h)) in
      (
        b'0' + size i % 10,
        c ∷ cs,
        rw (last_digit_lem i, z, e),
        λ s.
            ap (λ (l : List ℕ). read (l ++ s) 0) (reverse-cons (b'0' + size i % 10) (c ∷ cs))
            ∙ ap (λ (l : List ℕ). read l 0)
                (append_assoc (reverse (c ∷ cs)) ((b'0' + size i % 10) ∷ []) s)
            ∙ r ((b'0' + size i % 10) ∷ s)
            ∙ read_digit s (size (tenth i)) (size i) (size-tenth i),
      )
]

-- A text that reads as a number starts with a digit.
read_int-read : (t : List ℕ) (n : ℕ) → t ≢ [] → read t 0 ≡ some n → read_int t ≡ some (pos n)
unfolding read_int read
read_int-read [] n h e = absurd (h refl)
read_int-read (c ∷ t) n h e = ground (arith, e)

reverse-ne-nil : (c : ℕ) (cs : List ℕ) → reverse (c ∷ cs) ≢ []
reverse-ne-nil c cs e =
    omega (arith, ap length (sym (reverse-cons c cs) ∙ e), length-append (reverse cs) (c ∷ []))

module _ (c : ℕ) (cs : List ℕ) (m : ℕ)
    (r : (s : List ℕ) → read (reverse (c ∷ cs) ++ s) 0 ≡ read s m) where
  reads : read (reverse (c ∷ cs)) 0 ≡ some m
  unfolding read
  reads = ap (λ (l : List ℕ). read l 0) (sym (append-nil (reverse (c ∷ cs)))) ∙ r []

  reads_pos : read_int (reverse (c ∷ cs)) ≡ some (pos m)
  reads_pos = read_int-read (reverse (c ∷ cs)) m (reverse-ne-nil c cs) reads

  reads_neg : m ≢ 0 → read_int (reverse ((c ∷ cs) ++ b'-' ∷ [])) ≡ some (negsuc (m - 1))
  unfolding read_int
  reads_neg z =
      let e : (m == 0) ≡ false = ground (arith, z) in
      ap read_int (reverse-append (c ∷ cs) (b'-' ∷ [])) ∙ rw (reads, e)

-- convert ends for every integer, reads inside its table, and writes a text that reads back as the
-- integer.
pub read_int-convert : (i : ℤ) → (t : List ℕ) × (convert i ≡ some t) × (read_int t ≡ some i)
unfolding convert
read_int-convert (pos n) =
    let (c, cs, e, r) = convert_loop_lem (fuel_for (pos n)) (pos n) (omega arith) in
    let z : n + 0 ≡ n = omega arith in
    (reverse (c ∷ cs), rw e, reads_pos c cs (n + 0) r ∙ ap (λ (k : ℕ). some (pos k)) z)
read_int-convert (negsuc n) =
    let (c, cs, e, r) = convert_loop_lem (fuel_for (negsuc n)) (negsuc n) (omega arith) in
    let z : 0 + (n + 1) - 1 ≡ n = omega arith in
    (
      reverse ((c ∷ cs) ++ b'-' ∷ []),
      rw e,
      reads_neg c cs (0 + (n + 1)) r (λ q. omega (arith, q)) ∙ ap (λ (k : ℕ). some (negsuc k)) z,
    )
