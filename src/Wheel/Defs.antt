-- ===== src/Wheel/Defs.antt =====
-- src/reactor/Timer.h and src/reactor/Timer.cpp: TimerEntry and TimingWheel. A callback is known by
-- a number; that it runs is recorded in `fired`. Callbacks that change the wheel themselves are not
-- modelled. A slot holds shared pointers, so `none` is a null pointer.
use generic_server.Prelude.{
  ℕ, zero, suc, ◌+◌, ◌-◌, ◌*◌, ◌/◌, ◌%◌, Bool, true, false, Option, none, some, List, [], ◌∷◌, ◌++◌,
  length, get_or, set, replicate, ltb, ◌==◌, if◌then◌else◌, ◌>>=◌,
}

pub record Entry : Type 0 where
  pub callback : ℕ
  pub timeoutms : ℕ
  pub round : ℕ
  pub repeat : Bool
  pub disabled : Bool

-- The constructor TimerEntry(f, ms, repeat).
abbrev pub entry : ℕ → ℕ → Bool → Entry
entry f ms repeat = record {
  callback = f;
  timeoutms = ms;
  round = 0;
  repeat = repeat;
  disabled = false;
}

abbrev pub disable : Entry → Entry
disable e = record e { disabled = true }

abbrev pub round_size : ℕ
round_size = 100

abbrev pub TimerList : Type 0
TimerList = List (Option Entry)

pub record Wheel : Type 0 where
  pub cur : ℕ
  pub interval : ℕ
  pub slots : List TimerList

-- The constructor TimingWheel(interval).
abbrev pub init : ℕ → Wheel
init interval = record { cur = 0; interval = interval; slots = replicate round_size [] }

abbrev pub slot : Wheel → ℕ → TimerList
slot w s = get_or w.slots s []

-- `m_cur + ent->m_timeoutms / m_interval`, which `addEntry` divides by ROUND_SIZE.
abbrev pub target : Wheel → Entry → ℕ
target w e = w.cur + e.timeoutms / w.interval

abbrev pub placed : Wheel → Entry → Entry
placed w e = record e { round = target w e / round_size }

unfoldable pub add_entry : Entry → Wheel → Wheel
add_entry e w =
    let s : ℕ = target w e % round_size in
    record w { slots = set w.slots s (slot w s ++ some (placed w e) ∷ []) }

unfoldable pub add : Entry → Wheel → Wheel
unfolding add_entry
add e w = add_entry e w

-- A pass over the list of the current slot: the entries behind the iterator that were not erased,
-- those from it on, and the callbacks run so far. The wheel's own copy of the list is out of date
-- until the pass ends.
pub record Pass : Type 0 where
  pub wheel : Wheel
  pub kept : TimerList
  pub todo : TimerList
  pub fired : List ℕ

-- `addEntry(*it)`: to the list that is being gone through, or to another slot.
unfoldable pub add_again : Entry → Pass → Pass
unfolding add_entry
add_again e p =
    if target p.wheel e % round_size == p.wheel.cur
    then record p { todo = p.todo ++ some (placed p.wheel e) ∷ [] }
    else record p { wheel = add_entry e p.wheel }

-- One turn of the loop, the iterator at the pointer and `todo` behind it.
unfoldable pub visit : Option Entry → Pass → Pass
visit none p = p
visit (some e) p =
    if e.disabled
    then p
    else if ltb 0 e.round
    then record p { kept = p.kept ++ some (record e { round = e.round - 1 }) ∷ [] }
    else let ran : Pass = record p { fired = p.fired ++ e.callback ∷ [] } in
      if e.repeat then add_again e ran else ran

-- `none` means that the turns ran out.
unfoldable pub tick_loop : ℕ → Wheel → TimerList → TimerList → List ℕ → Option Pass
tick_loop zero w kept todo fired = none
tick_loop (suc turns) w kept [] fired =
    some (record { wheel = w; kept = kept; todo = []; fired = fired })
tick_loop (suc turns) w kept (x ∷ rest) fired =
    let p : Pass = visit x (record { wheel = w; kept = kept; todo = rest; fired = fired }) in
    tick_loop turns p.wheel p.kept p.todo p.fired

abbrev pub finish : Pass → Wheel × List ℕ
finish p = (
  record p.wheel {
    cur = (p.wheel.cur + 1) % round_size;
    slots = set p.wheel.slots p.wheel.cur p.kept;
  },
  p.fired,
)

abbrev pub tick_turns : ℕ → Wheel → Option (Wheel × List ℕ)
tick_turns turns w = do p ← tick_loop turns w [] (slot w w.cur) []; some (finish p)

-- Twice as many turns as there are entries are enough for a pass that ends at all.
unfoldable pub tick : Wheel → Option (Wheel × List ℕ)
unfolding tick_loop
tick w = tick_turns (2 * length (slot w w.cur) + 1) w
