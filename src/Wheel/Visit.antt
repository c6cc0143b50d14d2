-- ===== src/Wheel/Visit.antt =====
-- One turn of TimingWheel::tick and its call of addEntry (src/reactor/Timer.cpp), case by case.
use native.Mathlib.Decide.{ℕ_discrete}
use mathlib.Core.Path.{subst}
use generic_server.Prelude.{
  ◌-◌, ◌%◌, ◌<◌, ◌≡◌, ◌≢◌, sym, ◌∙◌, true, false, some, [], ◌∷◌, ◌++◌, arith, inl, inr, Bool-cases,
}
use generic_server.Wheel.Defs.{Entry, Pass, round_size, target, placed, add_entry, add_again, visit}

-- The callback ran.
abbrev pub ran : Entry → Pass → Pass
ran e p = record p { fired = p.fired ++ e.callback ∷ [] }

-- The entry stays, with a round less.
abbrev pub waited : Entry → Pass → Pass
waited e p = record p { kept = p.kept ++ some (record e { round = e.round - 1 }) ∷ [] }

-- The entry goes to the end of the list that is being gone through.
abbrev pub came_back : Entry → Pass → Pass
came_back e p = record p { todo = p.todo ++ some (placed p.wheel e) ∷ [] }

-- The entry goes to another slot.
abbrev pub moved : Entry → Pass → Pass
moved e p = record p { wheel = add_entry e p.wheel }

module _ (e : Entry) (p : Pass) where
  add_again_same : target p.wheel e % round_size ≡ p.wheel.cur → add_again e p ≡ came_back e p
  unfolding add_again
  add_again_same h = ground arith

  add_again_other : target p.wheel e % round_size ≢ p.wheel.cur → add_again e p ≡ moved e p
  unfolding add_again
  add_again_other h = ground arith

module _ (e : Entry) (p : Pass) where
  visit_disabled : e.disabled ≡ true → visit (some e) p ≡ p
  unfolding visit
  visit_disabled h = ground arith

  visit_waiting : e.disabled ≡ false → 0 < e.round → visit (some e) p ≡ waited e p
  unfolding visit
  visit_waiting h r = ground arith

  visit_once : e.disabled ≡ false → e.round ≡ 0 → e.repeat ≡ false → visit (some e) p ≡ ran e p
  unfolding visit
  visit_once h r q = ground arith

  visit_again :
      e.disabled ≡ false → e.round ≡ 0 → e.repeat ≡ true → visit (some e) p ≡ add_again e (ran e p)
  unfolding visit
  visit_again h r q = ground arith

  pub visit_same :
      e.disabled ≡ false
      → e.round ≡ 0
      → e.repeat ≡ true
      → target p.wheel e % round_size ≡ p.wheel.cur
      → visit (some e) p ≡ came_back e (ran e p)
  visit_same h r q s = visit_again h r q ∙ add_again_same e (ran e p) s

  -- A turn ends in one of five ways.
  pub visit_cases {ℓ} :
      (P : Pass → Type ℓ)
      → (e.disabled ≡ true → P p)
      → (e.disabled ≡ false → 0 < e.round → P (waited e p))
      → (e.disabled ≡ false → e.round ≡ 0 → e.repeat ≡ false → P (ran e p))
      → (e.disabled ≡ false
          → e.round ≡ 0
          → e.repeat ≡ true
          → target p.wheel e % round_size ≡ p.wheel.cur
          → P (came_back e (ran e p)))
      → (e.disabled ≡ false
          → e.round ≡ 0
          → e.repeat ≡ true
          → target p.wheel e % round_size ≢ p.wheel.cur
          → P (moved e (ran e p)))
      → P (visit (some e) p)
  visit_cases P off wait once same other = elim (Bool-cases e.disabled) [
    | inl d ↦ subst P (sym (visit_disabled d)) (off d)
    | inr d ↦ elim (ℕ_discrete e.round 0) [
      | no r ↦ subst P (sym (visit_waiting d (omega arith))) (wait d (omega arith))
      | yes r ↦ elim (Bool-cases e.repeat) [
        | inr q ↦ subst P (sym (visit_once d r q)) (once d r q)
        | inl q ↦ subst P (sym (visit_again d r q)) (again d r q)
      ]
    ]
  ]
    where
      again : e.disabled ≡ false → e.round ≡ 0 → e.repeat ≡ true → P (add_again e (ran e p))
      again d r q = elim (ℕ_discrete (target p.wheel e % round_size) p.wheel.cur) [
        | yes s ↦ subst P (sym (add_again_same e (ran e p) s)) (same d r q s)
        | no s ↦ subst P (sym (add_again_other e (ran e p) s)) (other d r q s)
      ]
