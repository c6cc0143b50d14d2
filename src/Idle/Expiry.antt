-- ===== src/Idle/Expiry.antt =====
-- src/net/IdleConnections.cpp: how many ticks an entry lives after it was touched.
use generic_server.Prelude.{
  ℕ, zero, suc, ◌+◌, ◌-◌, ◌%◌, ◌<◌, ◌≤◌, ◌≡◌, ◌≢◌, refl, sym, ap, ◌∙◌, Bool, true, false, ◌||◌,
  List, [], ◌∷◌, ◌++◌, ◌==◌, ltb, lt→ltb, arith, length, get_or, get_or-set_self, get_or-set_ne,
  length-set,
}
use mathlib.Core.Path.{subst}
use native.Mathlib.Decide.{ℕ_discrete, dec_lt}
use generic_server.Idle.Defs.{
  IdleConnections, slot, slot_size, add, update, is_listed, is_alive, next, cleared, tick,
}

-- What happens to the slots, apart from one entry.
pub data Op : Type 0 where
  ticks : Op
  adds : ℕ → Op
  updates : ℕ → Op

unfoldable pub run : List Op → IdleConnections → IdleConnections
run [] c = c
run (ticks ∷ ops) c = run ops (tick c).1
run (adds j ∷ ops) c = run ops (add j c)
run (updates j ∷ ops) c = run ops (update j c)

unfoldable pub count_ticks : List Op → ℕ
count_ticks [] = 0
count_ticks (ticks ∷ ops) = suc (count_ticks ops)
count_ticks (adds j ∷ ops) = count_ticks ops
count_ticks (updates j ∷ ops) = count_ticks ops

-- No operation touches the entry k.
abbrev pub Leaves : ℕ → List Op → Type 0
Leaves k [] = Unit {0}
Leaves k (ticks ∷ ops) = Leaves k ops
Leaves k (adds j ∷ ops) = (k ≢ j) × Leaves k ops
Leaves k (updates j ∷ ops) = (k ≢ j) × Leaves k ops

pub record IsValid (c : IdleConnections) : Type 0 where
  pub whole : length c.conns ≡ slot_size
  pub inside : c.cur < slot_size

abbrev lists : ℕ → ℕ → IdleConnections → Bool
lists k i c = is_listed k (slot i c)

-- The entry k was put into slot p, d ticks ago.
pub record Held (k p d : ℕ) (c : IdleConnections) : Type 0 where
  pub whole : length c.conns ≡ slot_size
  pub place : c.cur ≡ (p + d) % slot_size
  here : d < slot_size → lists k p c ≡ true
  gone : (i : ℕ) → 1 ≤ i → i ≤ d → lists k ((p + i) % slot_size) c ≡ false

listed-append_self : (k : ℕ) (l : List ℕ) → is_listed k (l ++ k ∷ []) ≡ true
unfolding is_listed
listed-append_self k [] = ground arith
listed-append_self k (j ∷ l) = ground (arith, listed-append_self k l)

listed-append_other : (k j : ℕ) (l : List ℕ) → k ≢ j → is_listed k (l ++ j ∷ []) ≡ is_listed k l
unfolding is_listed
listed-append_other k j [] n = ground (arith, n)
listed-append_other k j (i ∷ l) n = ap (λ (b : Bool). k == i || b) (listed-append_other k j l n)

-- Another entry is put into the current slot.
lists-add :
    (k j i : ℕ) (c : IdleConnections)
    → length c.conns ≡ slot_size
    → c.cur < slot_size
    → k ≢ j
    → lists k i (add j c) ≡ lists k i c
unfolding add
lists-add k j i c w h n = elim (ℕ_discrete c.cur i) [
  | yes e ↦ rw (← e) (
      ap (is_listed k)
        (get_or-set_self c.conns c.cur (slot c.cur c ++ j ∷ []) [] (omega (arith, w, h)))
      ∙ listed-append_other k j (slot c.cur c) n)
  | no o ↦ ap (is_listed k) (get_or-set_ne c.conns c.cur i (slot c.cur c ++ j ∷ []) [] o)
]

next_lem : (i : ℕ) → i < slot_size → next i ≡ (i + 1) % slot_size
next_lem i h = ground arith

alive_at :
    (k i : ℕ) (ls : List (List ℕ)) → is_listed k (get_or ls i []) ≡ true → is_alive k ls ≡ true
unfolding is_alive is_listed
alive_at k i [] e = e
alive_at k zero (l ∷ ls) e = rw e
alive_at k (suc i) (l ∷ ls) e = ground (arith, alive_at k i ls e)

dead_at :
    (k : ℕ) (ls : List (List ℕ))
    → ((i : ℕ) → i < length ls → is_listed k (get_or ls i []) ≡ false)
    → is_alive k ls ≡ false
unfolding is_alive
dead_at k [] f = refl
dead_at k (l ∷ ls) f = rw (f 0 (omega arith)) (dead_at k ls (λ i h. f (suc i) (omega arith)))

pub update-add : (k : ℕ) (c : IdleConnections) → update k c ≡ add k c
unfolding update add
update-add k c = refl

length-add : (j : ℕ) (c : IdleConnections) → length (add j c).conns ≡ length c.conns
unfolding add
length-add j c = length-set c.conns c.cur (slot c.cur c ++ j ∷ [])

cur_add : (j : ℕ) (c : IdleConnections) → (add j c).cur ≡ c.cur
unfolding add
cur_add j c = refl

-- Another entry is touched.
pub add-Held :
    (k j p d : ℕ) (c : IdleConnections)
    → c.cur < slot_size
    → k ≢ j
    → Held k p d c
    → Held k p d (add j c)
add-Held k j p d c h n v = record {
  whole = length-add j c ∙ v.whole;
  place = cur_add j c ∙ v.place;
  here = λ b. lists-add k j p c v.whole h n ∙ v.here b;
  gone = λ i a b. lists-add k j ((p + i) % slot_size) c v.whole h n ∙ v.gone i a b;
}

pub tick-Held :
    (k p d : ℕ) (c : IdleConnections) → p < slot_size → Held k p d c → Held k p (suc d) (cleared c)
unfolding cleared is_listed
tick-Held k p d c b v = record {
  whole = length-set c.conns (next c.cur) [] ∙ v.whole;
  place = at_next;
  here = λ h.
      ap (is_listed k)
        (get_or-set_ne c.conns (next c.cur) p [] [] (λ e. omega (arith, e, at_next, b, h)))
      ∙ v.here (omega arith);
  gone = λ i a h. elim (ℕ_discrete (next c.cur) ((p + i) % slot_size)) [
    | yes e ↦ rw (← e) (
        ap (is_listed k)
          (get_or-set_self c.conns (next c.cur) [] [] (omega (arith, v.whole, at_next))))
    | no o ↦
        ap (is_listed k) (get_or-set_ne c.conns (next c.cur) ((p + i) % slot_size) [] [] o)
        ∙ v.gone i a (not_last i h o)
  ];
}
  where
    at_next : next c.cur ≡ (p + suc d) % slot_size
    at_next = next_lem c.cur (omega (arith, v.place)) ∙ omega (arith, v.place)

    not_last : (i : ℕ) → i ≤ suc d → next c.cur ≢ (p + i) % slot_size → i ≤ d
    not_last i h o = elim (ℕ_discrete i (suc d)) [
      | yes e ↦ absurd (o (at_next ∙ ap (λ (n : ℕ). (p + n) % slot_size) (sym e)))
      | no n ↦ omega (arith, n)
    ]

listed_there : (k : ℕ) (c : IdleConnections) → IsValid c → lists k c.cur (add k c) ≡ true
unfolding add
listed_there k c v =
    ap (is_listed k)
      (get_or-set_self c.conns c.cur (slot c.cur c ++ k ∷ []) [] (omega (arith, v.whole, v.inside)))
    ∙ listed-append_self k (slot c.cur c)

-- The entry is put into the current slot.
pub touched-Held : (k : ℕ) (c : IdleConnections) → IsValid c → Held k c.cur 0 (add k c)
touched-Held k c v = record {
  whole = length-add k c ∙ v.whole;
  place = cur_add k c ∙ omega (arith, v.inside);
  here = λ h. listed_there k c v;
  gone = λ i a b. absurd (omega arith);
}

run-Held :
    (k p d : ℕ) (ops : List Op) (c : IdleConnections)
    → p < slot_size
    → Leaves k ops
    → Held k p d c
    → Held k p (count_ticks ops + d) (run ops c)
unfolding run count_ticks tick
run-Held k p d [] c b l v = subst (λ (n : ℕ). Held k p n c) (omega arith) v
run-Held k p d (ticks ∷ ops) c b l v =
    subst (λ (n : ℕ). Held k p n (run ops (cleared c))) (omega arith)
      (run-Held k p (suc d) ops (cleared c) b l (tick-Held k p d c b v))
run-Held k p d (adds j ∷ ops) c b l v =
    run-Held k p d ops (add j c) b l.1 (add-Held k j p d c (omega (arith, v.place)) l.0 v)
run-Held k p d (updates j ∷ ops) c b l v =
    run-Held k p d ops (update j c) b l.1
      (rw (update-add j c) (add-Held k j p d c (omega (arith, v.place)) l.0 v))

-- Sixty ticks clear every slot.
all_gone :
    (k p d : ℕ) (c : IdleConnections)
    → p < slot_size
    → slot_size ≤ d
    → Held k p d c
    → (j : ℕ) → j < slot_size
    → lists k j c ≡ false
all_gone k p d c b f v j h = elim (dec_lt p j) [
  | yes q ↦
      let e : (p + (j - p)) % slot_size ≡ j = omega (arith, q, h) in
      ap (λ (n : ℕ). lists k n c) (sym e) ∙ v.gone (j - p) (omega arith) (omega arith)
  | no q ↦
      let e : (p + (j + slot_size - p)) % slot_size ≡ j = omega (arith, q, h, b) in
      ap (λ (n : ℕ). lists k n c) (sym e) ∙ v.gone (j + slot_size - p) (omega arith) (omega arith)
]

not_below : (d : ℕ) → ¬ (d < slot_size) → ltb d slot_size ≡ false
not_below d n = ground (arith, n)

-- An entry in some slot lives for fewer than sixty ticks and no longer.
pub Held-alive :
    (k p d : ℕ) (c : IdleConnections)
    → p < slot_size
    → Held k p d c
    → is_alive k c.conns ≡ ltb d slot_size
Held-alive k p d c b v = elim (dec_lt d slot_size) [
  | yes h ↦ alive_at k p c.conns (v.here h) ∙ sym (lt→ltb d slot_size h)
  | no n ↦
      dead_at k c.conns (λ j h. all_gone k p d c b (omega arith) v j (omega (arith, h, v.whole)))
      ∙ sym (not_below d n)
]

-- An entry that was just added or updated, and is not touched again while other entries are and
-- time passes, is alive if and only if fewer than sixty ticks passed since: it is destroyed by the
-- sixtieth tick, not before, whatever slots held it earlier. The slots are valid.
pub idle-Expires :
    (k : ℕ) (ops : List Op) (c : IdleConnections)
    → IsValid c
    → Leaves k ops
    → (is_alive k (run ops (add k c)).conns ≡ ltb (count_ticks ops) slot_size)
      × (is_alive k (run ops (update k c)).conns ≡ ltb (count_ticks ops) slot_size)
idle-Expires k ops c v l = (lives, rw (update-add k c) lives)
  where
    lives : is_alive k (run ops (add k c)).conns ≡ ltb (count_ticks ops) slot_size
    lives =
        let h : Held k c.cur (count_ticks ops + 0) (run ops (add k c)) =
          run-Held k c.cur 0 ops (add k c) v.inside l (touched-Held k c v) in
        let z : count_ticks ops + 0 ≡ count_ticks ops = omega arith in
        Held-alive k c.cur (count_ticks ops + 0) (run ops (add k c)) v.inside h
        ∙ ap (λ (n : ℕ). ltb n slot_size) z
