-- ===== src/Wheel/Rule.antt =====
-- TimingWheel::tick (src/reactor/Timer.cpp): the rule by which a fact about the pass over a slot is
-- carried to its end, and the predicates on lists of timers that such facts use.
use mathlib.Core.Path.{subst}
use generic_server.Prelude.{
  ℕ, zero, suc, ◌+◌, ◌*◌, Option-cases, some_eq, ◌<◌, ◌≡◌, ◌≢◌, refl, sym, ap, ◌⊎◌, inl, inr,
  Option, none, some, List, [], ◌∷◌, ◌++◌, length, get_or, set, get_or-set_self, get_or-set_ne,
}
use generic_server.Wheel.Defs.{Entry, Wheel, Pass, TimerList, slot, visit, tick_loop, tick, finish}
use generic_server.Wheel.Loop.{All, All-snoc}

abbrev pub Any {ℓ} : {A : Type ℓ} → (A → Type 0) → List A → Type 0
Any P [] = ⊥
Any P (x ∷ xs) = P x ⊎ Any P xs

module _ {ℓ} {A : Type ℓ} (P : A → Type 0) where
  pub Any-left : (xs ys : List A) → Any P xs → Any P (xs ++ ys)
  Any-left [] ys h = elim h [ ]
  Any-left (x ∷ xs) ys (inl h) = inl h
  Any-left (x ∷ xs) ys (inr h) = inr (Any-left xs ys h)

  pub Any-snoc : (xs : List A) (x : A) → P x → Any P (xs ++ x ∷ [])
  Any-snoc [] x h = inl h
  Any-snoc (y ∷ xs) x h = inr (Any-snoc xs x h)

  -- What an appended slot keeps and gets, out of range or not.
  pub Any-append_slot :
      (slots : List (List A)) (t s : ℕ) (x : A)
      → Any P (get_or slots s [])
      → Any P (get_or (set slots t (get_or slots t [] ++ x ∷ [])) s [])
  Any-append_slot [] t s x h = h
  Any-append_slot (l ∷ slots) zero zero x h = Any-left l (x ∷ []) h
  Any-append_slot (l ∷ slots) zero (suc s) x h = h
  Any-append_slot (l ∷ slots) (suc t) zero x h = h
  Any-append_slot (l ∷ slots) (suc t) (suc s) x h = Any-append_slot slots t s x h

  pub All-append_slot :
      (slots : List (List A)) (t s : ℕ) (x : A)
      → All P (get_or slots s [])
      → (s ≡ t → P x)
      → All P (get_or (set slots t (get_or slots t [] ++ x ∷ [])) s [])
  All-append_slot [] t s x h p = h
  All-append_slot (l ∷ slots) zero zero x h p = All-snoc P l x h (p refl)
  All-append_slot (l ∷ slots) zero (suc s) x h p = h
  All-append_slot (l ∷ slots) (suc t) zero x h p = h
  All-append_slot (l ∷ slots) (suc t) (suc s) x h p =
      All-append_slot slots t s x h (λ e. p (ap suc e))

-- A fact that every turn keeps holds when the pass ends, and then no entry is left to go through.
pub tick_loop-inv {ℓ} :
    (P : Pass → Type ℓ)
    → ((x : Option Entry) (p : Pass) → P (record p { todo = x ∷ p.todo }) → P (visit x p))
    → (turns : ℕ) (w : Wheel) (kept todo : TimerList) (fired : List ℕ) (q : Pass)
    → P (record { wheel = w; kept = kept; todo = todo; fired = fired })
    → tick_loop turns w kept todo fired ≡ some q
    → P (record q { todo = [] })
unfolding tick_loop
tick_loop-inv P keep zero w kept todo fired q h e = cc
tick_loop-inv P keep (suc turns) w kept [] fired q h e =
    let same : Pass = record { wheel = w; kept = kept; todo = []; fired = fired } in
    let f : same ≡ q = cc in subst (λ (r : Pass). P (record r { todo = [] })) f h
tick_loop-inv P keep (suc turns) w kept (x ∷ rest) fired q h e =
    let p : Pass = record { wheel = w; kept = kept; todo = rest; fired = fired } in
    tick_loop-inv P keep turns (visit x p).wheel (visit x p).kept (visit x p).todo (visit x p).fired
      q (keep x p h) e

-- The same for a whole tick.
pub tick-inv {ℓ} :
    (P : Pass → Type ℓ) (w w' : Wheel) (fired : List ℕ)
    → ((x : Option Entry) (p : Pass) → P (record p { todo = x ∷ p.todo }) → P (visit x p))
    → P (record { wheel = w; kept = []; todo = slot w w.cur; fired = [] })
    → tick w ≡ some (w', fired)
    → (q : Pass) × P (record q { todo = [] }) × (finish q ≡ (w', fired))
unfolding tick
tick-inv P w w' fired keep h e = elim (Option-cases (tick_loop turns w [] todo [])) [
  | inl z ↦ let f : ◌≡◌ {A = Option (Wheel × List ℕ)} none (some (w', fired)) = rw z at e in cc
  | inr (q, z) ↦
      let f : some (finish q) ≡ some (w', fired) = rw z at e in
      (q, tick_loop-inv P keep turns w [] todo [] q h z, some_eq f)
]
  where
    todo : TimerList
    todo = slot w w.cur

    turns : ℕ
    turns = 2 * length todo + 1

-- The slot that was gone through holds what was kept; the others are as the pass left them.
pub slot-finish_self :
    (q : Pass) → q.wheel.cur < length q.wheel.slots → slot (finish q).0 q.wheel.cur ≡ q.kept
slot-finish_self q h = get_or-set_self q.wheel.slots q.wheel.cur q.kept [] h

pub slot-finish_other : (q : Pass) (s : ℕ) → s ≢ q.wheel.cur → slot (finish q).0 s ≡ slot q.wheel s
slot-finish_other q s h = get_or-set_ne q.wheel.slots q.wheel.cur s q.kept [] (λ e. h (sym e))
