-- ===== src/Wheel/Sole.antt =====
-- src/reactor/Timer.cpp: a callback that belongs to timers of one kind only.
use native.Mathlib.Decide.{ℕ_discrete}
use mathlib.Core.Path.{subst}
use generic_server.Prelude.{
  ℕ, ◌+◌, ◌-◌, ◌≡◌, ◌≢◌, refl, ap, ◌∙◌, inl, inr, Bool-cases, true, false, Option, none, some, List,
  [], ◌∷◌, arith, ◌==◌, if◌then◌else◌,
}
use generic_server.Wheel.Defs.{
  Entry, Wheel, Pass, TimerList, slot, placed, add_entry, add, visit, tick,
}
use generic_server.Wheel.Visit.{visit_cases}
use generic_server.Wheel.Loop.{All, All-snoc}
use generic_server.Wheel.Rule.{All-append_slot, slot-finish_self, slot-finish_other}
use generic_server.Wheel.Ready.{IsValid, tick-rule}
use generic_server.Wheel.Kind.{Kind, is_kind, one, count, one-none, one-disabled, one-round}
use generic_server.Wheel.DueNow.{
  due_now, due_now-none, due_now-disabled, due_now-waits, due_now-runs,
}

-- A timer with the callback of the kind is of that kind.
abbrev pub Belongs : Kind → Option Entry → Type 0
Belongs q none = Unit {0}
Belongs q (some e) = e.callback ≡ q.callback → (e.timeoutms ≡ q.timeoutms) × (e.repeat ≡ q.repeat)

abbrev pub IsSole : Kind → Wheel → Type 0
IsSole q w = (s : ℕ) → All (Belongs q) (slot w s)

-- How often a callback runs.
unfoldable pub times : ℕ → List ℕ → ℕ
times f [] = 0
times f (g ∷ gs) = (if g == f then 1 else 0) + times f gs

module _ (q : Kind) where
  record Kept (p : Pass) : Type 0 where
    wheel : IsSole q p.wheel
    kept : All (Belongs q) p.kept
    todo : All (Belongs q) p.todo

  visit-Kept :
      (x : Option Entry) (p : Pass) → Kept (record p { todo = x ∷ p.todo }) → Kept (visit x p)
  unfolding visit add_entry
  visit-Kept none p k = record { wheel = k.wheel; kept = k.kept; todo = k.todo.1 }
  visit-Kept (some e) p k =
      visit_cases e p Kept (λ d. record { wheel = k.wheel; kept = k.kept; todo = k.todo.1 })
        (λ d r. record {
          wheel = k.wheel;
          kept =
              All-snoc (Belongs q) p.kept (some (record e { round = e.round - 1 })) k.kept k.todo.0;
          todo = k.todo.1;
        })
        (λ d r b. record { wheel = k.wheel; kept = k.kept; todo = k.todo.1 })
        (λ d r b s. record {
          wheel = k.wheel;
          kept = k.kept;
          todo = All-snoc (Belongs q) p.todo (some (placed p.wheel e)) k.todo.1 k.todo.0;
        })
        (λ d r b s. record {
          wheel = λ i.
              All-append_slot (Belongs q) p.wheel.slots _ i (some (placed p.wheel e)) (k.wheel i)
                (λ _. k.todo.0);
          kept = k.kept;
          todo = k.todo.1;
        })

  pub tick-IsSole :
      (w w' : Wheel) (fired : List ℕ)
      → IsValid w
      → IsSole q w
      → tick w ≡ some (w', fired)
      → IsSole q w'
  tick-IsSole w w' fired v k e =
      let (p, g, h, f) =
        tick-rule Kept w w' fired v (λ x p g h. visit-Kept x p h)
          (record { wheel = k; kept = tt; todo = k w.cur }) e in
      subst (λ (r : Wheel × List ℕ). IsSole q r.0) f
        (λ s. elim (ℕ_discrete s p.wheel.cur) [
          | yes m ↦ rw (m, slot-finish_self p (omega (arith, g.valid))) h.kept
          | no m ↦ rw (slot-finish_other p s m) (h.wheel s)
        ])

  pub add-IsSole : (e : Entry) (w : Wheel) → IsSole q w → Belongs q (some e) → IsSole q (add e w)
  unfolding add add_entry
  add-IsSole e w k b =
      λ s. All-append_slot (Belongs q) w.slots _ s (some (placed w e)) (k s) (λ _. b)

  is_kind-yes :
      (e : Entry)
      → e.disabled ≡ false
      → e.callback ≡ q.callback
      → e.timeoutms ≡ q.timeoutms
      → e.repeat ≡ q.repeat
      → is_kind q e ≡ true
  unfolding is_kind
  is_kind-yes e d c m r = elim (Bool-cases q.repeat) [
    | inl b ↦ rw (d, r, b) (ground (arith, c, m))
    | inr b ↦ rw (d, r, b) (ground (arith, c, m))
  ]

  is_kind-no : (e : Entry) → e.callback ≢ q.callback → is_kind q e ≡ false
  unfolding is_kind
  is_kind-no e c = ground (arith, c)

  one-times :
      (e : Entry)
      → Belongs q (some e)
      → e.disabled ≡ false
      → e.round ≡ 0
      → one q 0 (some e) ≡ (if e.callback == q.callback then 1 else 0)
  unfolding one
  one-times e b d r = elim (ℕ_discrete e.callback q.callback) [
    | yes c ↦ rw (is_kind-yes e d c (b c).0 (b c).1) (ground (arith, r, c))
    | no c ↦ rw (is_kind-no e c) (ground (arith, c))
  ]

  -- The callback runs as often as a timer of the kind is due.
  pub times-due_now :
      (l : TimerList) → All (Belongs q) l → times q.callback (due_now l) ≡ count q 0 l
  unfolding count times
  times-due_now [] h = unfold due_now in refl
  times-due_now (none ∷ l) h =
      ap (times q.callback) (due_now-none l) ∙ omega (arith, one-none q 0, times-due_now l h.1)
  times-due_now (some e ∷ l) h = elim (Bool-cases e.disabled) [
    | inl d ↦
        ap (times q.callback) (due_now-disabled e l d)
        ∙ omega (arith, one-disabled q e 0 d, times-due_now l h.1)
    | inr d ↦ elim (ℕ_discrete e.round 0) [
      | yes r ↦
          ap (times q.callback) (due_now-runs e l d r)
          ∙ omega (arith, one-times e h.0 d r, times-due_now l h.1)
      | no r ↦
          ap (times q.callback) (due_now-waits e l (omega (arith, r)))
          ∙ omega (arith, one-round q e 0 r, times-due_now l h.1)
    ]
  ]
