-- ===== src/Wheel/Ready.antt =====
-- src/reactor/Timer.cpp: the invariant of the wheel, kept by `add` and `tick`.
use mathlib.Core.Path.{subst}
use native.Mathlib.Decide.{ℕ_discrete}
use generic_server.Prelude.{
  ℕ, zero, suc, ◌+◌, ◌%◌, ◌<◌, ◌≡◌, refl, sym, ap, ◌∙◌, Option, none, some, List, [], ◌∷◌, length,
  get_or, arith, length-set, length-replicate, replicate,
}
use generic_server.Wheel.Defs.{
  Entry, Wheel, Pass, TimerList, round_size, slot, target, placed, add_entry, visit, tick, finish,
}
use generic_server.Wheel.Visit.{visit_cases}
use generic_server.Wheel.Loop.{All, All-snoc, Waits}
use generic_server.Wheel.Rule.{All-append_slot, tick-inv, slot-finish_self, slot-finish_other}

-- Every slot is there, and every repeating timer waits at least one interval.
pub record IsValid (w : Wheel) : Type 0 where
  pub in_range : w.cur < round_size
  pub positive : 0 < w.interval
  pub all_slots : length w.slots ≡ round_size
  pub wait : (s : ℕ) → All (Waits w.interval) (slot w s)

pub get_or-replicate_nil : (n s : ℕ) → get_or {A = TimerList} (replicate n []) s [] ≡ []
get_or-replicate_nil zero s = refl
get_or-replicate_nil (suc n) zero = refl
get_or-replicate_nil (suc n) (suc s) = get_or-replicate_nil n s

-- A wheel with empty slots is valid wherever it stands.
pub empty-IsValid :
    (c i : ℕ)
    → c < round_size
    → 0 < i
    → IsValid (record { cur = c; interval = i; slots = replicate round_size [] })
empty-IsValid c i h p = record {
  in_range = h;
  positive = p;
  all_slots = length-replicate {A = TimerList} round_size [];
  wait = λ s. rw (get_or-replicate_nil round_size s) tt;
}

pub add_entry-IsValid :
    (e : Entry) (w : Wheel) → IsValid w → Waits w.interval (some e) → IsValid (add_entry e w)
unfolding add_entry
add_entry-IsValid e w v h = record {
  in_range = v.in_range;
  positive = v.positive;
  all_slots = length-set w.slots _ _ ∙ v.all_slots;
  wait = λ s.
      All-append_slot (Waits w.interval) w.slots (target w e % round_size) s (some (placed w e))
        (v.wait s) (λ _. h);
}

-- A pass: the wheel is valid, and so are the timers that are not in it at the moment.
pub record Going (n : ℕ) (c : ℕ) (p : Pass) : Type 0 where
  pub valid : IsValid p.wheel
  pub same_cur : p.wheel.cur ≡ c
  pub same_interval : p.wheel.interval ≡ n
  pub kept : All (Waits n) p.kept
  pub todo : All (Waits n) p.todo

visit-Going :
    (n c : ℕ) (x : Option Entry) (p : Pass)
    → Going n c (record p { todo = x ∷ p.todo })
    → Going n c (visit x p)
unfolding visit add_entry
visit-Going n c none p g = record {
  valid = g.valid;
  same_cur = g.same_cur;
  same_interval = g.same_interval;
  kept = g.kept;
  todo = g.todo.1;
}
visit-Going n c (some e) p g =
    visit_cases e p (Going n c)
      (λ d. record {
        valid = g.valid;
        same_cur = g.same_cur;
        same_interval = g.same_interval;
        kept = g.kept;
        todo = g.todo.1;
      })
      (λ d r. record {
        valid = g.valid;
        same_cur = g.same_cur;
        same_interval = g.same_interval;
        kept = All-snoc (Waits n) p.kept _ g.kept g.todo.0;
        todo = g.todo.1;
      })
      (λ d r q. record {
        valid = g.valid;
        same_cur = g.same_cur;
        same_interval = g.same_interval;
        kept = g.kept;
        todo = g.todo.1;
      })
      (λ d r q s. record {
        valid = g.valid;
        same_cur = g.same_cur;
        same_interval = g.same_interval;
        kept = g.kept;
        todo = All-snoc (Waits n) p.todo (some (placed p.wheel e)) g.todo.1 g.todo.0;
      })
      (λ d r q s. record {
        valid =
            add_entry-IsValid e p.wheel g.valid (λ h. omega (arith, g.todo.0 h, g.same_interval));
        same_cur = g.same_cur;
        same_interval = g.same_interval;
        kept = g.kept;
        todo = g.todo.1;
      })

finish-IsValid : (n c : ℕ) (q : Pass) → Going n c q → IsValid (finish q).0
finish-IsValid n c q g = record {
  in_range = omega (arith, g.valid);
  positive = g.valid.positive;
  all_slots = length-set q.wheel.slots q.wheel.cur q.kept ∙ g.valid.all_slots;
  wait = λ s. elim (ℕ_discrete s q.wheel.cur) [
    | yes e ↦
        rw (e, slot-finish_self q (omega (arith, g.valid)))
          (subst (λ k. All (Waits k) q.kept) (sym g.same_interval) g.kept)
    | no e ↦ rw (slot-finish_other q s e) (g.valid.wait s)
  ];
}

start-Going :
    (w : Wheel)
    → IsValid w
    → Going w.interval w.cur (record { wheel = w; kept = []; todo = slot w w.cur; fired = [] })
start-Going w v = record {
  valid = v;
  same_cur = refl;
  same_interval = refl;
  kept = tt;
  todo = v.wait w.cur;
}

-- The rule for a tick of a valid wheel.
pub tick-rule {ℓ} :
    (P : Pass → Type ℓ) (w w' : Wheel) (fired : List ℕ)
    → IsValid w
    → ((x : Option Entry) (p : Pass)
        → Going w.interval w.cur (record p { todo = x ∷ p.todo })
        → P (record p { todo = x ∷ p.todo })
        → P (visit x p))
    → P (record { wheel = w; kept = []; todo = slot w w.cur; fired = [] })
    → tick w ≡ some (w', fired)
    → (q : Pass) × Going w.interval w.cur (record q { todo = [] })
      × P (record q { todo = [] })
      × (finish q ≡ (w', fired))
tick-rule P w w' fired v keep h e =
    let (q, g, f) =
      tick-inv (λ (p : Pass). Going w.interval w.cur p × P p) w w' fired
        (λ x p g. (visit-Going w.interval w.cur x p g.0, keep x p g.0 g.1)) (start-Going w v, h)
        e in
    (q, g.0, g.1, f)

-- The wheel after a tick.
abbrev pub MovesOn : Wheel → Wheel → Type 0
MovesOn w w' = IsValid w' × (w'.cur ≡ (w.cur + 1) % round_size) × (w'.interval ≡ w.interval)

-- TimingWheel::tick keeps the wheel valid, moves on by one slot, and keeps the interval.
pub tick-IsValid :
    (w w' : Wheel) (fired : List ℕ) → IsValid w → tick w ≡ some (w', fired) → MovesOn w w'
tick-IsValid w w' fired v e =
    let (q, g, f) =
      tick-inv (Going w.interval w.cur) w w' fired (visit-Going w.interval w.cur) (start-Going w v)
        e in
    let same : (finish q).0 ≡ w' = ap (λ (r : Wheel × List ℕ). r.0) f in
    (
      subst IsValid same (finish-IsValid w.interval w.cur (record q { todo = [] }) g),
      sym (ap (λ (u : Wheel). u.cur) same) ∙ ap (λ k. (k + 1) % round_size) g.same_cur,
      sym (ap (λ (u : Wheel). u.interval) same) ∙ g.same_interval,
    )
