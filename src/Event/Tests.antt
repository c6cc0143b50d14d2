-- ===== src/Event/Tests.antt =====
-- src/reactor/Event.cpp at concrete inputs.
use generic_server.Prelude.{ℕ, ◌≡◌, refl, true, false, some, List, [], ◌∷◌}
use generic_server.Event.Defs.{
  Mask, no_events, Host, handle_event, on_hup, on_err, on_rdhup, on_input, on_output,
}
use generic_server.Event.Dispatch.{Dispatched, handle_event-Dispatched}

-- The event and the callbacks that ran, the last one first: 1 read, 2 write, 3 close, 4 error.
abbrev Trace : Type 0
Trace = Mask × List ℕ

abbrev host : Host Trace
host = record {
  revents_of = (λ s. s.0);
  with_revents = (λ m s. (m, s.1));
  read_callback = some (λ s. (s.0, 1 ∷ s.1));
  write_callback = some (λ s. (s.0, 2 ∷ s.1));
  close_callback = some (λ s. (no_events, 3 ∷ s.1));
  error_callback = some (λ s. (no_events, 4 ∷ s.1));
}

abbrev everything : Mask
everything = record {
  input = true;
  pri = true;
  output = true;
  err = true;
  hup = true;
  rdhup = true;
  et = false;
}

error_alone : handle_event host (everything, []) ≡ (no_events, 4 ∷ [])
unfolding handle_event on_hup on_err on_rdhup on_input on_output
error_alone = refl

read_then_write :
    handle_event host (record everything { err = false; rdhup = false }, [])
    ≡ (no_events, 2 ∷ 1 ∷ [])
unfolding handle_event on_hup on_err on_rdhup on_input on_output
read_then_write = refl

handle_event-Dispatched_example :
    Dispatched host (everything, []) (handle_event host (everything, []))
handle_event-Dispatched_example =
    handle_event-Dispatched host (everything, []) (λ s. refl) (λ s. refl)
