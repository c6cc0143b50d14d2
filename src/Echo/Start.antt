-- ===== src/Echo/Start.antt =====
-- example/EchoServer.h: the loop of a worker once it has the timer of its idle connections.
use mathlib.Core.Path.{subst}
use generic_server.Prelude.{ℕ, ◌+◌, ◌/◌, ◌%◌, ◌≡◌, refl, sym, ap, ◌∙◌, true, some, some_eq, arith}
use generic_server.Wheel.{Wheel, slot, entry}
use generic_server.Wheel
use generic_server.Wheel.Loop.{All}
use generic_server.Wheel.Ready.{IsValid, empty-IsValid, add_entry-IsValid, get_or-replicate_nil}
use generic_server.Wheel.Kind.{waiting, count, is_kind}
use generic_server.Wheel.Bag.{add-waiting}
use generic_server.Wheel.Sole.{Belongs, add-IsSole}
use generic_server.Idle
use generic_server.Idle.Expiry
use generic_server.Echo.Defs.{period, Worker, expire}
use generic_server.Echo.Clock.{idle_timer, IsTimed, expire-Expired}
use generic_server.Echo.Timeout.{IsReady}

-- A loop with the timer that EchoServer adds to it, before its wheel ticks.
abbrev pub worker : ℕ → Worker
worker tid = record {
  wheel = Wheel.add (entry tid period true) (Wheel.init period);
  idle = Idle.init;
}

module _ (tid : ℕ) where
  none_waits : (j : ℕ) → waiting (idle_timer tid) j (Wheel.init period) ≡ 0
  unfolding count
  none_waits j = ap (count (idle_timer tid) (j / 100)) (get_or-replicate_nil 100 ((0 + j) % 100))

  timer_is : is_kind (idle_timer tid) (entry tid period true) ≡ true
  unfolding is_kind
  timer_is = ground arith

  empty : IsValid (Wheel.init period)
  empty = empty-IsValid 0 period (omega arith) (omega arith)

  worker-IsTimed : IsTimed tid 1 (worker tid).wheel
  worker-IsTimed = record {
    valid =
        unfold Wheel.add in
        add_entry-IsValid (entry tid period true) (Wheel.init period) empty (λ r. omega arith);
    interval = unfold Wheel.add in refl;
    sole =
        add-IsSole (idle_timer tid) (entry tid period true) (Wheel.init period) (λ s. nothing s)
          (λ _. (refl, refl));
    one_waits = λ j.
        add-waiting (idle_timer tid) j (entry tid period true) (Wheel.init period) empty
        ∙ rw (none_waits j, timer_is) (ground arith);
  }
    where
      nothing : (s : ℕ) → All (Belongs (idle_timer tid)) (slot (Wheel.init period) s)
      nothing s = subst (All (Belongs (idle_timer tid))) (sym (get_or-replicate_nil 100 s)) tt

  start-IsValid : Idle.Expiry.IsValid Idle.init
  start-IsValid = omega arith

-- After the first tick of the wheel of such a loop the timer runs in the next tick.
pub expire-IsReady : (tid : ℕ) (s : Worker) → expire tid (worker tid) ≡ some s → IsReady tid s
expire-IsReady tid s e =
    let (t, f, x) = expire-Expired tid 1 (worker tid) (worker-IsTimed tid) in
    let same : t ≡ s = some_eq (sym f ∙ e) in
    subst (IsReady tid) same
      (record { timed = x.0; idle = subst Idle.Expiry.IsValid (sym x.2) (start-IsValid tid) })
