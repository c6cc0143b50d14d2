-- ===== src/Connection/Session.antt =====
-- src/net/TCPConnection.cpp (handleRead, handleWrite) with the message callback of
-- example/EchoServer.h: rows of turns of a connection.
use generic_server.Prelude.{
  ◌⊎◌, ℕ, ◌≡◌, ◌≢◌, min, true, Option, some, List, [], ◌∷◌, ◌++◌, take, length, ◌>>=◌, ◌<◌,
}
use generic_server.Prelude.Int.{pos_part, ℤ}
use generic_server.Buffer.{Answer, remain_size, to_string}
use generic_server.Buffer.Valid.{IsValid}
use generic_server.Buffer.Stream.{Reads, Writes, delivered, sent}
use generic_server.Loop.{is_in_loop_thread}
use generic_server.Connection.Defs.{
  Site, event_of, on_message, send, handle_read, handle_write, econnreset,
}
use generic_server.Connection.Write.{asks_output, epoll_asks}

-- A connection in its loop's thread, polled and with buffers in order.
pub record IsOpen (tid : ℕ) (s : Site) : Type 0 where
  pub own : is_in_loop_thread tid s.loop ≡ true
  pub polls : (event_of s).polling ≡ true
  pub writes : IsValid s.conn.wbuf
  pub reads : IsValid s.conn.rbuf

-- Between two turns: nothing is left to read, and there is room to read into.
abbrev pub IsTalking : ℕ → Site → Type 0
IsTalking tid s = IsOpen tid s × (to_string s.conn.rbuf ≡ []) × (0 < remain_size s.conn.rbuf)

-- The socket is ready: a read with the errno before it, or a write.
pub data Turn : Type 0 where
  reads : (ℕ → Answer) → ℕ → Turn
  writes : (List ℕ → ℤ) → Turn

-- An answer that does not end the connection.
abbrev pub Stays : Answer → Type 0
Stays (Answer.done []) = ⊥
Stays (Answer.done (b ∷ bytes)) = Unit {0}
Stays (Answer.failed e) = e ≢ econnreset

abbrev pub IsLawful : Turn → Type 0
IsLawful (reads read old) = Reads read × ((n : ℕ) → 0 < n → Stays (read n)) × (old ≢ econnreset)
IsLawful (writes write) = Writes write

-- The bytes of an answer for which the write buffer has room.
abbrev pub accepted : Answer → Site → List ℕ
accepted a s = take (min (length (delivered a)) (remain_size s.conn.wbuf)) (delivered a)

module _ (tid : ℕ) (f : Option (Site → Site)) where
  -- One turn: the bytes that came and were kept, those that were sent, and the connection after it.
  unfoldable pub turn : Turn → Site → Option (List ℕ × List ℕ × Site)
  turn (reads read old) s = do
    t ← handle_read (on_message tid) f read old tid s
    some (accepted (read (remain_size s.conn.rbuf)) s, [], t)
  turn (writes write) s = do
    t ← handle_write write tid s
    some ([], sent (send write s.conn.wbuf).0 s.conn.wbuf, t)

  unfoldable pub run : List Turn → Site → Option (List ℕ × List ℕ × Site)
  unfolding turn
  run [] s = some ([], [], s)
  run (x ∷ xs) s = do (i, o, t) ← turn x s; (is, os, u) ← run xs t; some (i ++ is, o ++ os, u)

abbrev pub Echoes : ℕ → Site → Option (List ℕ × List ℕ × Site) → Type 0
Echoes tid s r =
    (i : List ℕ) × (o : List ℕ) × (t : Site) × (r ≡ some (i, o, t))
    × IsTalking tid t
    × (to_string s.conn.wbuf ++ i ≡ o ++ to_string t.conn.wbuf)

-- Unless nothing waits to be sent, EPOLLOUT is asked for: by the event, and of epoll.
abbrev pub IsKeen : Site → Type 0
IsKeen s = (to_string s.conn.wbuf ≡ []) ⊎ ((asks_output s ≡ true) × (epoll_asks s ≡ true))

-- A write that takes a byte at least, where there are any.
abbrev pub IsTaking : Turn → Type 0
IsTaking (reads read old) = Unit {0}
IsTaking (writes write) = (bytes : List ℕ) → bytes ≢ [] → 0 < pos_part (write bytes)
