-- ===== src/Connection/Timers.antt =====
-- src/net/TCPConnection.cpp (handleClose): the loop that disables the timers of a connection.
use generic_server.Prelude.{
  ℕ, ◌≡◌, ◌≢◌, refl, ◌⊎◌, true, false, Option, none, some, List, [], ◌∷◌, map, Bool-cases, inl, inr,
  arith,
}
use native.Mathlib.Decide.{ℕ_discrete}
use generic_server.Wheel.{Entry, disable}
use generic_server.Wheel.Loop.{All}
use generic_server.Wheel.Rule.{Any}
use generic_server.Loop.{Task, add_task, modify_task, remove_task, user_task, timer_task}
use generic_server.Connection.Defs.{is_listed, disable_listed, disable_task}

-- Of the timers those in the list are disabled, and the others stay as they are.
abbrev pub Disables : List ℕ → Entry → Entry → Type 0
Disables fs a b =
    (Any (λ f. a.callback ≡ f) fs × (b ≡ disable a)) ⊎ (All (λ f. a.callback ≢ f) fs × (b ≡ a))

abbrev pub DisablesSlot : List ℕ → Option Entry → Option Entry → Type 0
DisablesSlot fs none none = Unit
DisablesSlot fs (some a) (some b) = Disables fs a b
DisablesSlot fs _ _ = ⊥

abbrev pub DisablesTask : List ℕ → Task → Task → Type 0
DisablesTask fs (timer_task a) (timer_task b) = Disables fs a b
DisablesTask fs t u = t ≡ u

-- The two lists are of one length, and what stands at the same place is related.
abbrev pub Each : {A : Type 0} → (A → A → Type 0) → List A → List A → Type 0
Each R [] [] = Unit
Each R (x ∷ xs) (y ∷ ys) = R x y × Each R xs ys
Each R _ _ = ⊥

pub Each-map :
    {A : Type 0} (R : A → A → Type 0) (f : A → A)
    → ((x : A) → R x (f x))
    → (xs : List A) → Each R xs (map f xs)
Each-map R f h [] = tt
Each-map R f h (x ∷ xs) = (h x, Each-map R f h xs)

listed : (n : ℕ) (fs : List ℕ) → is_listed n fs ≡ true → Any (λ f. n ≡ f) fs
unfolding is_listed
listed n [] e = cc
listed n (f ∷ fs) e = elim (ℕ_discrete n f) [
  | yes p ↦ inl p
  | no p ↦ inr (listed n fs (ground (arith, p, e)))
]

unlisted : (n : ℕ) (fs : List ℕ) → is_listed n fs ≡ false → All (λ f. n ≢ f) fs
unfolding is_listed
unlisted n [] e = tt
unlisted n (f ∷ fs) e = ((λ p. ground (arith, p, e)), unlisted n fs (ground (arith, e)))

pub slot_lem : (fs : List ℕ) (x : Option Entry) → DisablesSlot fs x (disable_listed fs x)
slot_lem fs none = tt
slot_lem fs (some a) = elim (Bool-cases (is_listed a.callback fs)) [
  | inl e ↦ rw e (inl (listed a.callback fs e, refl))
  | inr e ↦ rw e (inr (unlisted a.callback fs e, refl))
]

pub task_lem : (fs : List ℕ) (t : Task) → DisablesTask fs t (disable_task fs t)
task_lem fs (timer_task a) = elim (Bool-cases (is_listed a.callback fs)) [
  | inl e ↦ rw e (inl (listed a.callback fs e, refl))
  | inr e ↦ rw e (inr (unlisted a.callback fs e, refl))
]
task_lem fs (add_task k) = refl
task_lem fs (modify_task k) = refl
task_lem fs (remove_task k) = refl
task_lem fs (user_task k) = refl
