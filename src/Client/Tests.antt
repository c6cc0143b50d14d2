-- ===== src/Client/Tests.antt =====
-- src/net/TCPClient.h at concrete inputs.
use generic_server.Prelude.{ℕ, ◌≡◌, refl, false, some, List, [], ◌∷◌, replicate}
use mathlib.Core.List.{Mem}
use generic_server.Prelude.Int.{ℤ, pos, negsuc}
use generic_server.Event
use generic_server.Wheel
use generic_server.Connection.{Site, handle_close}
use generic_server.Client.Defs.{connected, close_callback, send}
use generic_server.Client.Stale.{closed_gets_messages}

-- A client without connections, whose loop runs in thread 1.
abbrev client : Site
client = record {
  loop = record {
    thread_id = 1;
    quit = false;
    work = record {
      events = λ n. Event.init (negsuc 0);
      poller = record { controls = []; room = 16 };
      timer_wheel = Wheel.init 1000;
      ran = [];
    };
    active_events = [];
    wakeup_count = 0;
    pending = [];
  };
  conn = record {
    event = 0;
    rbuf = record { mem = []; size = 0; wptr = 0; rptr = 0 };
    wbuf = record { mem = []; size = 0; wptr = 0; rptr = 0 };
    timer_list = [];
  };
  closed = [];
  conn_map = [];
}

abbrev zeros : ℕ → List ℕ
zeros n = replicate n 0

closed_gets_messages_example :
    (t : Site) × (u : Site) × (connected zeros 1 2 (pos 9) client ≡ some t)
    × (handle_close (some close_callback) 1 t ≡ some u)
    × (u.closed ≡ pos 9 ∷ [])
    × Mem {A = ℤ × List ℕ} (pos 9, b'h' ∷ []) (send (b'h' ∷ []) u)
closed_gets_messages_example = closed_gets_messages zeros 1 2 9 client (b'h' ∷ []) refl
