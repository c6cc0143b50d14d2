-- ===== src/Connector/Tests.antt =====
-- src/net/Connector.cpp at concrete inputs.
use generic_server.Prelude.{◌≡◌, ◌≤◌, refl, some, List, [], ◌∷◌}
use generic_server.Prelude.Int.{pos}
use generic_server.Connector.Defs.{
  Connector, init, set_failed_callback, connect, retry, try_again, unknown, closes, waits, fails,
}
use generic_server.Connector.Attempts.{
  Call, connects, call, call_all, count_waits, call_all_bounded,
}

-- A server that has no room three times, the connector one of a program's first.
abbrev fresh : Connector
fresh = set_failed_callback (init 0)

abbrev three_times : List Call
three_times =
    connects try_again (pos 5) ∷ connects unknown (pos 6) ∷ connects try_again (pos 7) ∷ []

abbrev tired : Connector
tired = record fresh {
  retry_times = 3;
  actions = closes (pos 5) ∷ waits 5 ∷ closes (pos 6) ∷ waits 5 ∷ closes (pos 7) ∷ fails ∷ [];
}

gives_up : call_all three_times fresh ≡ some tired
unfolding call_all call connect retry
gives_up = refl

call_all_bounded_example : count_waits tired.actions ≤ 2
unfolding count_waits
call_all_bounded_example = call_all_bounded three_times fresh tired gives_up
