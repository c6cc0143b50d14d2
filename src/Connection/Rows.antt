-- ===== src/Connection/Rows.antt =====
-- src/net/TCPConnection.cpp (handleRead, handleWrite) with the message callback of
-- example/EchoServer.h: a connection over many turns of its loop.
use generic_server.Prelude.{ℕ, ◌≡◌, refl, Option, some, List, [], ◌∷◌, ◌++◌, flow_trans, append-nil}
use generic_server.Buffer.{to_string}
use generic_server.Wheel.Loop.{All}
use generic_server.Connection.Defs.{Site}
use generic_server.Connection.Session.{IsTalking, Turn, IsLawful, run, Echoes, IsKeen, IsTaking}
use generic_server.Connection.Turns.{turn-Turned}

-- A connection of the echo server, in its loop's thread, over any row of turns in which the socket
-- delivers bytes, has none, or takes some: nothing faults, and what waited at first with the bytes
-- that came, but for those for which there was no room, is what was sent with what waits now, in
-- order. The connection is polled, its buffers are valid, and it does not end on the way.
pub run-Echoes :
    (tid : ℕ) (f : Option (Site → Site)) (xs : List Turn) (s : Site)
    → IsTalking tid s
    → All IsLawful xs
    → Echoes tid s (run tid f xs s)
unfolding run
run-Echoes tid f [] s k l = ([], [], s, refl, k, append-nil (to_string s.conn.wbuf))
run-Echoes tid f (x ∷ xs) s k l =
    let (i, o, t, e, m, c, h) = turn-Turned tid f x s k l.0 in
    let (is, os, u, g, n, d) = run-Echoes tid f xs t m l.1 in
    (
      i ++ is,
      o ++ os,
      u,
      rw (e, g) refl,
      n,
      flow_trans (to_string s.conn.wbuf) i o (to_string t.conn.wbuf) is os (to_string u.conn.wbuf) c
          d,
    )

-- If moreover the socket takes a byte at least whenever it is offered some, and EPOLLOUT is asked
-- for at first unless nothing waits, then after such a row EPOLLOUT is asked for unless nothing
-- waits: by the event, and by the last call of epoll_ctl on its descriptor.
pub run-IsKeen :
    (tid : ℕ) (f : Option (Site → Site)) (xs : List Turn) (s : Site)
    → IsTalking tid s
    → All IsLawful xs
    → All IsTaking xs
    → IsKeen s
    → (i : List ℕ) × (o : List ℕ) × (t : Site) × (run tid f xs s ≡ some (i, o, t)) × IsKeen t
unfolding run
run-IsKeen tid f [] s k l m h = ([], [], s, refl, h)
run-IsKeen tid f (x ∷ xs) s k l m h =
    let (i, o, t, e, n, c, j) = turn-Turned tid f x s k l.0 in
    let (is, os, u, g, v) = run-IsKeen tid f xs t n l.1 m.1 (j m.0 h) in
    (i ++ is, o ++ os, u, rw (e, g) refl, v)
