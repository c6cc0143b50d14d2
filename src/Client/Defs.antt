-- ===== src/Client/Defs.antt =====
-- src/net/TCPClient.h: the callbacks of the class TCPClient and its sending. `conn_map` of a site
-- is m_conns.
use generic_server.Prelude.{ℕ, Option, List, ◌∷◌, map}
use generic_server.Prelude.Int.{ℤ}
use generic_server.Connection.{Site, get_fd, construct, start_poll_event, erase}

-- The success callback of the connector, with the number of the new event.
unfoldable pub connected : (ℕ → List ℕ) → ℕ → ℕ → ℤ → Site → Option Site
connected new_chars tid k fd s =
    let t : Site = construct new_chars k fd s in
    start_poll_event tid (record t { conn_map = (fd, k) ∷ erase fd t.conn_map })

unfoldable pub close_callback : Site → Site
close_callback s = record s { conn_map = erase (get_fd s) s.conn_map }

-- The descriptors that `::send` is called with, and the message.
unfoldable pub send : List ℕ → Site → List (ℤ × List ℕ)
send msg s = map (λ (p : ℤ × ℕ). (p.0, msg)) s.conn_map
