-- ===== src/Connector/Attempts.antt =====
-- src/net/Connector.cpp: how often a connector tries again.
use generic_server.Prelude.{
  ℕ, suc, ◌+◌, ◌-◌, ◌≤◌, ◌≡◌, refl, ap, Option, some, some_eq, bind_some, List, [], ◌∷◌, ◌++◌, ltb,
  ltb→lt, Bool-cases, inl, inr, arith, ◌>>=◌, ◌==◌,
}
use generic_server.Prelude.Int.{ℤ, pos, negsuc}
use generic_server.Event.{Event}
use generic_server.Connector.Defs.{
  Connector, Action, adds_event, removes_event, closes, waits, succeeds, fails, Outcome, connected,
  in_progress, try_again, refused, unknown, Address, connect, check, retry, fail, succeed, act,
  give_up, settle, written, handle_write, is_self_connect,
}

-- How many timers for another attempt were started.
unfoldable pub count_waits : List Action → ℕ
count_waits [] = 0
count_waits (waits ms ∷ l) = suc (count_waits l)
count_waits (adds_event fd ∷ l) = count_waits l
count_waits (removes_event fd ∷ l) = count_waits l
count_waits (closes fd ∷ l) = count_waits l
count_waits (succeeds fd ∷ l) = count_waits l
count_waits (fails ∷ l) = count_waits l

count_waits-append : (l m : List Action) → count_waits (l ++ m) ≡ count_waits l + count_waits m
unfolding count_waits
count_waits-append [] m = omega arith
count_waits-append (waits ms ∷ l) m = omega (arith, count_waits-append l m)
count_waits-append (adds_event fd ∷ l) m = count_waits-append l m
count_waits-append (removes_event fd ∷ l) m = count_waits-append l m
count_waits-append (closes fd ∷ l) m = count_waits-append l m
count_waits-append (succeeds fd ∷ l) m = count_waits-append l m
count_waits-append (fails ∷ l) m = count_waits-append l m

-- The attempts made and those that are left.
abbrev pub budget : Connector → ℕ
budget c = count_waits c.actions + (2 - c.retry_times)

-- One call of the connector, with what the system answers.
pub data Call : Type 0 where
  connects : Outcome → ℤ → Call
  writes : ℤ → Address → Address → Call

unfoldable pub call : Call → Connector → Option Connector
call (connects o fd) c = some (connect o fd c)
call (writes err local peer) c = handle_write err local peer c

unfoldable pub call_all : List Call → Connector → Option Connector
call_all [] c = some c
call_all (k ∷ ks) c = do d ← call k c; call_all ks d

act_quiet : (a : Action) (c : Connector) → count_waits (a ∷ []) ≡ 0 → budget (act a c) ≡ budget c
act_quiet a c e = omega (arith, count_waits-append c.actions (a ∷ []), e)

fail_quiet : (c : Connector) → budget (fail c) ≡ budget c
unfolding count_waits
fail_quiet c = elim (Bool-cases c.has_failed) [
  | inl e ↦ rw e (act_quiet fails c refl)
  | inr e ↦ rw e
]

succeed_quiet : (fd : ℤ) (c : Connector) → budget (succeed fd c) ≡ budget c
unfolding count_waits
succeed_quiet fd c = elim (Bool-cases c.has_success) [
  | inl e ↦ rw e (act_quiet (succeeds fd) c refl)
  | inr e ↦ rw e
]

added : (fd : ℤ) (c : Connector) → budget (check fd c) ≡ budget c
unfolding check count_waits
added fd c = omega (arith, count_waits-append c.actions (adds_event fd ∷ []))

-- The retry counter goes up and the descriptor is closed.
abbrev counted : ℤ → Connector → Connector
counted fd c = act (closes fd) (record c { retry_times = suc c.retry_times })

counted_quiet :
    (fd : ℤ) (c : Connector) → count_waits (counted fd c).actions ≡ count_waits c.actions
unfolding count_waits
counted_quiet fd c = omega (arith, count_waits-append c.actions (closes fd ∷ []))

waits_more :
    (fd : ℤ) (c : Connector)
    → count_waits (act (waits 5) (counted fd c)).actions ≡ suc (count_waits c.actions)
unfolding count_waits
waits_more fd c =
    omega (arith, counted_quiet fd c, count_waits-append (counted fd c).actions (waits 5 ∷ []))

retry_le : (fd : ℤ) (c : Connector) → budget (retry fd c) ≤ budget c
unfolding retry
retry_le fd c = elim (Bool-cases (ltb (suc c.retry_times) 3)) [
  | inl e ↦ rw e (omega (arith, waits_more fd c, ltb→lt (suc c.retry_times) 3 e))
  | inr e ↦ rw e (omega (arith, fail_quiet (counted fd c), counted_quiet fd c))
]

connect_le : (o : Outcome) (fd : ℤ) (c : Connector) → budget (connect o fd c) ≤ budget c
unfolding connect
connect_le connected fd c = omega (arith, added fd c)
connect_le in_progress fd c = omega (arith, added fd c)
connect_le try_again fd c = retry_le fd c
connect_le refused fd c = omega (arith, fail_quiet c)
connect_le unknown fd c = retry_le fd c

give_up_le :
    (local peer : Address) (fd : ℤ) (c : Connector) → budget (give_up local peer fd c) ≤ budget c
unfolding give_up count_waits
give_up_le local peer fd c = elim (Bool-cases (is_self_connect local peer)) [
  | inl e ↦ rw e (retry_le fd c)
  | inr e ↦ rw e (omega (arith, fail_quiet (act (closes fd) c), act_quiet (closes fd) c refl))
]

settle_le :
    (err : ℤ) (local peer : Address) (fd : ℤ) (c : Connector)
    → budget (settle err local peer fd c) ≤ budget c
settle_le (pos n) local peer fd c = elim (Bool-cases (n == 0)) [
  | inl e ↦ rw e (omega (arith, succeed_quiet fd c))
  | inr e ↦ rw e (give_up_le local peer fd c)
]
settle_le (negsuc n) local peer fd c = give_up_le local peer fd c

handle_write_le :
    (err : ℤ) (local peer : Address) (c d : Connector)
    → handle_write err local peer c ≡ some d
    → budget d ≤ budget c
unfolding handle_write count_waits
handle_write_le err local peer c d h =
    let (e, f, g) = bind_some c.event (λ (e : Event). some (written err local peer e c)) d h in
    rw (← some_eq g) (
      omega (
        arith,
        settle_le err local peer e.fd (act (removes_event e.fd) c),
        act_quiet (removes_event e.fd) c refl,
      ))

call_le : (k : Call) (c d : Connector) → call k c ≡ some d → budget d ≤ budget c
unfolding call
call_le (connects o fd) c d h = rw (← some_eq h) (connect_le o fd c)
call_le (writes err local peer) c d h = handle_write_le err local peer c d h

-- However often connect and handleWrite are called and whatever the system answers, as long as none
-- faults, a connector starts no more timers for another attempt than two, less the attempts that
-- retry_times counted before: it does not try again forever.
pub call_all_bounded :
    (ks : List Call) (c d : Connector)
    → call_all ks c ≡ some d
    → count_waits d.actions ≤ count_waits c.actions + (2 - c.retry_times)
unfolding call_all
call_all_bounded ks c d h = omega (arith, go ks c d h)
  where
    go : (ks : List Call) (c d : Connector) → call_all ks c ≡ some d → budget d ≤ budget c
    go [] c d h = omega (arith, ap budget (some_eq h))
    go (k ∷ ks) c d h =
        let (b, e, f) = bind_some (call k c) (call_all ks) d h in
        omega (arith, call_le k c b e, go ks b d f)
