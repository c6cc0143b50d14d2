-- ===== src/Wheel/Kind.antt =====
-- src/reactor/Timer.h and src/reactor/Timer.cpp: the timers of one kind, counted.
use generic_server.Prelude.{
  ℕ, zero, suc, ◌+◌, ◌*◌, ◌-◌, ◌/◌, ◌%◌, ◌<◌, ◌≤◌, ◌≡◌, ◌≢◌, refl, sym, ap, inl, inr, Bool,
  Bool-cases, true, false, ◌&&◌, Option, none, some, List, [], ◌∷◌, ◌++◌, arith, ◌==◌,
  if◌then◌else◌, get_or, set, get_or-set_self, length,
}
use native.Mathlib.Decide.{ℕ_discrete}
use generic_server.Wheel.Defs.{Entry, Wheel, TimerList, round_size, slot, target, placed, add_entry}
use generic_server.Wheel.Fires.{wait_ticks}

-- What a timer does, whatever slot it is in.
pub record Kind : Type 0 where
  pub callback : ℕ
  pub timeoutms : ℕ
  pub repeat : Bool

-- A live timer of this kind.
unfoldable pub is_kind : Kind → Entry → Bool
is_kind q e =
    (if e.disabled then false else true)
    && (e.callback == q.callback)
    && (e.timeoutms == q.timeoutms)
    && (if e.repeat then q.repeat else (if q.repeat then false else true))

-- With n rounds left.
unfoldable pub one : Kind → ℕ → Option Entry → ℕ
one q n none = 0
one q n (some e) = if is_kind q e then (if e.round == n then 1 else 0) else 0

unfoldable pub count : Kind → ℕ → TimerList → ℕ
count q n [] = 0
count q n (x ∷ xs) = one q n x + count q n xs

-- The live timers of a kind that run in the tick after `j` more ticks.
abbrev pub waiting : Kind → ℕ → Wheel → ℕ
waiting q j w = count q (j / round_size) (slot w ((w.cur + j) % round_size))

-- Whether a timer of the kind that runs at position `c` runs next in the tick after `j` more.
unfoldable pub again : Kind → ℕ → ℕ → ℕ → ℕ
again q c interval j =
    if q.repeat then (if j + 1 == wait_ticks c (q.timeoutms / interval) then 1 else 0) else 0

pub count-snoc :
    (q : Kind) (n : ℕ) (xs : TimerList) (x : Option Entry)
    → count q n (xs ++ x ∷ []) ≡ count q n xs + one q n x
unfolding count
count-snoc q n [] x = omega arith
count-snoc q n (y ∷ xs) x = omega (arith, count-snoc q n xs x)

pub count-append_slot :
    (q : Kind) (n : ℕ) (slots : List TimerList) (t s : ℕ) (x : Option Entry)
    → s ≢ t
    → count q n (get_or (set slots t (get_or slots t [] ++ x ∷ [])) s [])
      ≡ count q n (get_or slots s [])
count-append_slot q n [] t s x h = refl
count-append_slot q n (l ∷ slots) zero zero x h = absurd (h refl)
count-append_slot q n (l ∷ slots) zero (suc s) x h = refl
count-append_slot q n (l ∷ slots) (suc t) zero x h = refl
count-append_slot q n (l ∷ slots) (suc t) (suc s) x h =
    count-append_slot q n slots t s x (λ e. h (ap suc e))

pub times-count :
    (q : Kind) (a n : ℕ) (x : Option Entry) (xs : TimerList)
    → a * count q n (x ∷ xs) ≡ a * one q n x + a * count q n xs
unfolding count
times-count q a n x xs = grind arith

pub times-snoc :
    (q : Kind) (a n : ℕ) (x : Option Entry) (xs : TimerList)
    → a * count q n (xs ++ x ∷ []) ≡ a * count q n xs + a * one q n x
times-snoc q a n x xs = rw (count-snoc q n xs x) (grind arith)

-- What a slot holds once a timer was added.
pub count-add_entry :
    (q : Kind) (n : ℕ) (e : Entry) (w : Wheel) (s : ℕ)
    → length w.slots ≡ round_size
    → count q n (slot (add_entry e w) s)
      ≡ count q n (slot w s)
        + (if target w e % round_size == s then one q n (some (placed w e)) else 0)
unfolding add_entry
count-add_entry q n e w s h =
    let t : ℕ = target w e % round_size in
    elim (ℕ_discrete t s) [
      | yes m ↦
          rw
            (
              ← m,
              get_or-set_self w.slots t (slot w t ++ some (placed w e) ∷ []) [] (omega (arith, h)),
            )
            (ground (arith, count-snoc q n (slot w t) (some (placed w e))))
      | no m ↦
          ground (arith, m, count-append_slot q n w.slots t s (some (placed w e)) (λ k. m (sym k)))
    ]

pub one-none : (q : Kind) (n : ℕ) → one q n none ≡ 0
unfolding one
one-none q n = refl

module _ (q : Kind) (e : Entry) where
  pub one-disabled : (n : ℕ) → e.disabled ≡ true → one q n (some e) ≡ 0
  unfolding one is_kind
  one-disabled n h = rw h refl

  pub one-round : (n : ℕ) → e.round ≢ n → one q n (some e) ≡ 0
  unfolding one
  one-round n h = elim (Bool-cases (is_kind q e)) [
    | inl k ↦ rw k (ground (arith, h))
    | inr k ↦ rw k refl
  ]

  pub kind_round : (n : ℕ) → is_kind q (record e { round = n }) ≡ is_kind q e
  unfolding is_kind
  kind_round n = refl

  pub one-waited :
      (n : ℕ)
      → 0 < e.round
      → one q n (some (record e { round = e.round - 1 })) ≡ one q (n + 1) (some e)
  unfolding one
  one-waited n h =
      rw (kind_round (e.round - 1))
        (elim (Bool-cases (is_kind q e)) [ inl k ↦ rw k (ground (arith, h)) | inr k ↦ rw k refl ])

  pub kind-repeat : is_kind q e ≡ true → e.repeat ≡ q.repeat
  unfolding is_kind
  kind-repeat h = ground (arith, h)

  pub kind-timeoutms : is_kind q e ≡ true → e.timeoutms ≡ q.timeoutms
  unfolding is_kind
  kind-timeoutms h = ground (arith, h)

pub hits_other :
    (c k j : ℕ)
    → c < 100
    → (c + k) % 100 ≢ c
    → ◌≡◌ {A = ℕ} (if j + 1 == wait_ticks c k then 1 else 0) (
        if (c + k) % 100 == (c + 1 + j) % 100
        then (if (c + k) / 100 == j / 100 then 1 else 0)
        else 0)
hits_other c k j h d = ground (arith, h, d)

pub hits_same :
    (c k j : ℕ)
    → c < 100
    → (c + k) % 100 ≡ c
    → 1 ≤ k
    → ◌≡◌ {A = ℕ}
        (if j + 1 == wait_ticks c k then 1 else 0)
        (if j % 100 == 99 then (if (c + k) / 100 == j / 100 + 1 then 1 else 0) else 0)
hits_same c k j h d p = ground (arith, h, d, p)

-- A timer that runs at position `c`, and the row of ticks in which it runs next.
module _ (q : Kind) (e : Entry) (c i : ℕ) where
  pub again-once : (j : ℕ) → e.repeat ≡ false → again q c i j * one q 0 (some e) ≡ 0
  unfolding again one
  again-once j r = elim (Bool-cases (is_kind q e)) [
    | inl k ↦ rw (k, ← kind-repeat q e k, r) (ground arith)
    | inr k ↦ rw k (omega arith)
  ]

  placed_there : ℕ → Option Entry
  placed_there k = some (record e { round = (c + k) / round_size })

  module _ (j : ℕ) (z : e.round ≡ 0) (r : e.repeat ≡ true) (h : c < round_size) where
    pub again-other :
        (c + e.timeoutms / i) % round_size ≢ c
        → again q c i j * one q 0 (some e) ≡ (
            if (c + e.timeoutms / i) % round_size == (c + 1 + j) % round_size
            then one q
                (j / round_size)
                (some (record e { round = (c + e.timeoutms / i) / round_size }))
            else 0)
    unfolding again one
    again-other d =
        rw (kind_round q e ((c + e.timeoutms / i) / round_size)) (elim (Bool-cases (is_kind q e)) [
          | inl k ↦
              rw (k, ← kind-repeat q e k, r, ← kind-timeoutms q e k, z)
                (omega (arith, hits_other c (e.timeoutms / i) j h d))
          | inr k ↦ rw k (ground arith)
        ])

    pub again-same :
        (c + e.timeoutms / i) % round_size ≡ c
        → 1 ≤ e.timeoutms / i
        → again q c i j * one q 0 (some e) ≡ (
            if j % round_size == 99
            then one q
                (j / round_size + 1)
                (some (record e { round = (c + e.timeoutms / i) / round_size }))
            else 0)
    unfolding again one
    again-same d p =
        rw (kind_round q e ((c + e.timeoutms / i) / round_size)) (elim (Bool-cases (is_kind q e)) [
          | inl k ↦
              rw (k, ← kind-repeat q e k, r, ← kind-timeoutms q e k, z)
                (omega (arith, hits_same c (e.timeoutms / i) j h d p))
          | inr k ↦ rw k (ground arith)
        ])
