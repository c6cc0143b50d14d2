-- ===== src/Connection/Tests.antt =====
-- src/net/TCPConnection.cpp at concrete inputs.
use generic_server.Wheel.Loop.{All}
use generic_server.Prelude.{
  inr, zero, suc, ◌<◌, ℕ, ◌≡◌, ◌≢◌, refl, ap, replicate, length-replicate, true, false, some, none,
  List, [], ◌∷◌, arith, length,
}
use generic_server.Prelude.Int.{ℤ, pos, negsuc}
use generic_server.Buffer.{Buffer, Answer}
use generic_server.Buffer.Valid.{IsValid}
use generic_server.Buffer.Stream.{Reads, Writes, delivered}
use generic_server.Event.{Event, enable_read, enable_write, set_polling}
use generic_server.Event
use generic_server.Wheel
use generic_server.Wheel.{entry}
use generic_server.Loop.{Loop, add_timer, run_task, ctl_add, timer_task}
use generic_server.Connection.Defs.{
  Site, event_of, handle_close, shutdown, on_close, lookup, erase, is_key, put_event, econnreset,
  tear_down, stop_poll_event,
}
use generic_server.Connection.Close.{TornDown, handle_close_lem, handle_close_keeps, shutdown_lem}
use generic_server.Connection.Write.{heard}
use generic_server.Connection.Session.{
  IsTalking, Turn, Stays, IsLawful, Echoes, run, IsKeen, IsTaking,
}
use generic_server.Connection.Rows.{run-Echoes, run-IsKeen}

-- Two bytes wait in a block of five, or none do.
abbrev waiting : Buffer
waiting = record { mem = 7 ∷ 8 ∷ 9 ∷ 0 ∷ 0 ∷ []; size = 5; wptr = 3; rptr = 1 }

abbrev empty : Buffer
empty = record { mem = 0 ∷ 0 ∷ 0 ∷ []; size = 3; wptr = 0; rptr = 0 }

waiting-IsValid : IsValid waiting
waiting-IsValid = omega arith

empty-IsValid : IsValid empty
empty-IsValid = omega arith

-- A connection on the descriptor 9, polled by the loop of thread 1.
abbrev talk : Site
talk = record {
  loop = record {
    thread_id = 1;
    quit = false;
    work = record {
      events = λ n. set_polling true (enable_write true (enable_read (Event.init (pos 9))));
      poller = record {
        controls =
            (ctl_add, pos 9, (enable_write true (enable_read (Event.init (pos 9)))).events) ∷ [];
        room = 16;
      };
      timer_wheel = Wheel.init 1000;
      ran = [];
    };
    active_events = [];
    wakeup_count = 0;
    pending = [];
  };
  conn = record { event = 4; rbuf = empty; wbuf = waiting; timer_list = [] };
  closed = [];
  conn_map = (pos 9, 4) ∷ [];
}

-- The same with a timer of its own that waits in m_pending, and one in the wheel.
abbrev timed : Site
timed = record talk {
  loop =
      let l : Loop = add_timer 1 (entry 3 2000 true) talk.loop in
      record l { pending = timer_task (entry 5 4000 false) ∷ [] };
  conn = record { event = 4; rbuf = empty; wbuf = waiting; timer_list = 3 ∷ 5 ∷ [] };
}

abbrev after_close : Site
after_close = on_close (tear_down 1 talk)

leaks : lookup (pos 9) after_close.conn_map ≡ some 4
unfolding on_close tear_down stop_poll_event put_event run_task lookup erase is_key
leaks = refl

handle_close_lem_example :
    (t : Site) × (handle_close (some on_close) 1 timed ≡ some (on_close t)) × TornDown timed t
handle_close_lem_example = handle_close_lem 1 timed refl on_close

handle_close_keeps_example :
    (t : Site) × (handle_close (some on_close) 1 talk ≡ some t)
    × (lookup (pos 9) t.conn_map ≡ lookup (pos 9) talk.conn_map)
handle_close_keeps_example = handle_close_keeps 1 talk refl 9

shutdown_lem_example :
    ((event_of (shutdown (some on_close) 1 talk)).polling ≡ false)
    × (lookup (pos 9) (shutdown (some on_close) 1 talk).conn_map ≡ none)
    × ((shutdown (some on_close) 1 talk).closed ≡ pos 9 ∷ [])
shutdown_lem_example = shutdown_lem 1 talk refl

-- The socket takes one byte, or none for now.
abbrev takes_one : List ℕ → ℤ
takes_one [] = pos 0
takes_one (b ∷ bytes) = pos 1

takes_one-Writes : Writes takes_one
takes_one-Writes [] = omega arith
takes_one-Writes (b ∷ bytes) = omega arith

abbrev again : List ℕ → ℤ
again bytes = negsuc 0

-- The socket delivers as many bytes as are asked for; two of ones find room.
abbrev ones : ℕ → Answer
ones n = Answer.done (replicate n 1)

ones-Reads : Reads ones
ones-Reads n bytes e =
    let f : length (replicate n 1) ≡ length bytes = ap (λ (a : Answer). length (delivered a)) e in
    let g : length (replicate n 1) ≡ n = length-replicate {A = ℕ} n 1 in omega (arith, f, g)

no_error : 0 ≢ econnreset
no_error e = omega (arith, e)

-- Bytes come, one is sent, none can be read, and one more is sent.
abbrev turns : List Turn
turns =
    Turn.reads ones 0
    ∷ Turn.writes takes_one
    ∷ Turn.reads (λ n. Answer.failed 11) 0
    ∷ Turn.writes takes_one
    ∷ []

ones_stay : (n : ℕ) → 0 < n → Stays (ones n)
ones_stay zero h = absurd (omega arith)
ones_stay (suc n) h = tt

none_now : Reads (λ n. Answer.failed 11)
none_now n bytes e = absurd (failed_done e)
  where
    failed_done : Answer.failed 11 ≡ Answer.done bytes → ⊥
    failed_done e = cc

not_reset_now : 11 ≢ econnreset
not_reset_now e = omega (arith, e)

turns-IsLawful : All IsLawful turns
turns-IsLawful = (
  (ones-Reads, ones_stay, no_error),
  (takes_one-Writes, ((none_now, (λ n h. not_reset_now), no_error), (takes_one-Writes, tt))),
)

talk-IsTalking : IsTalking 1 talk
talk-IsTalking = (
  record { own = refl; polls = refl; writes = waiting-IsValid; reads = empty-IsValid },
  refl,
  omega arith,
)

run-Echoes_example : Echoes 1 talk (run 1 (some on_close) turns talk)
run-Echoes_example = run-Echoes 1 (some on_close) turns talk talk-IsTalking turns-IsLawful

takes_one-IsTaking : IsTaking (Turn.writes takes_one)
takes_one-IsTaking [] n = absurd (n refl)
takes_one-IsTaking (b ∷ bytes) n = omega arith

run-IsKeen_example :
    (i : List ℕ) × (o : List ℕ) × (t : Site) × (run 1 (some on_close) turns talk ≡ some (i, o, t))
    × IsKeen t
unfolding heard is_key
run-IsKeen_example =
    run-IsKeen 1 (some on_close) turns talk talk-IsTalking turns-IsLawful
      (tt, (takes_one-IsTaking, (tt, (takes_one-IsTaking, tt)))) (inr (refl, refl))
