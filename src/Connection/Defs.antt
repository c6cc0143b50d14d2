-- ===== src/Connection/Defs.antt =====
-- src/net/TCPConnection.h, TCPConnection.cpp, Socket.cpp (send, recv) and TCPServer.cpp (the map):
-- the handlers of one connection, with the loop they run in and the server's map.
use generic_server.Prelude.{
  ℕ, Bool, true, false, ◌&&◌, ◌||◌, Option, none, some, List, [], ◌∷◌, ◌++◌, map, if◌then◌else◌,
  ◌==◌, ltb, leb, drop, ◌>>=◌,
}
use generic_server.Prelude.Int.{ℤ, pos, negsuc}
use generic_server.Buffer.{Buffer, Answer, data_size, clear, append, read_in, write_out, to_string}
use generic_server.Buffer
use generic_server.Event.{Event, no_events, set_revents, enable_read, enable_write, close}
use generic_server.Event
use generic_server.Wheel.{Entry, Wheel, TimerList, disable, entry}
use generic_server.Loop.{
  Loop, Work, Task, timer_task, put, add_event, modify_event, remove_event, add_timer,
}

-- A connection: the number of its event in its loop, its buffers, the timers that it started (by
-- the numbers of their callbacks, each of which stands for the pointer to one TimerEntry).
pub record Connection : Type 0 where
  pub event : ℕ
  pub rbuf : Buffer
  pub wbuf : Buffer
  pub timer_list : List ℕ

-- What a handler works on: the connection, its loop, the descriptors that were closed, and the
-- server's map from descriptors to connections, which are known by the numbers of their events.
pub record Site : Type 0 where
  pub loop : Loop
  pub conn : Connection
  pub closed : List ℤ
  pub conn_map : List (ℤ × ℕ)

abbrev pub event_of : Site → Event
event_of s = s.loop.work.events s.conn.event

abbrev pub get_fd : Site → ℤ
get_fd s = (event_of s).fd

unfoldable pub put_event : Event → Site → Site
put_event e s =
    let l : Loop = s.loop in record s { loop = record l { work = put s.conn.event e l.work } }

abbrev pub put_wbuf : Buffer → Site → Site
put_wbuf b s = let c : Connection = s.conn in record s { conn = record c { wbuf = b } }

abbrev pub put_rbuf : Buffer → Site → Site
put_rbuf b s = let c : Connection = s.conn in record s { conn = record c { rbuf = b } }

-- The constructor: the event of the descriptor, which reads, and two empty buffers.
abbrev pub buffer_size : ℕ
buffer_size = 1048576

abbrev pub construct : (ℕ → List ℕ) → ℕ → ℤ → Site → Site
construct new_chars k fd s = put_event (enable_read (Event.init fd)) (record s {
  conn = record {
    event = k;
    rbuf = Buffer.make new_chars buffer_size;
    wbuf = Buffer.make new_chars buffer_size;
    timer_list = [];
  };
})

-- SocketOP::send and SocketOP::recv, without their logging.
unfoldable pub send : (List ℕ → ℤ) → Buffer → ℤ × Buffer
send write b = if leb (data_size b) 0 then (negsuc 0, b) else write_out write b

abbrev pub recv : (ℕ → Answer) → Buffer → Option (ℤ × Buffer)
recv read b = read_in read b

abbrev pub with_loop : Loop → Site → Site
with_loop l s = record s { loop = l }

abbrev pub start_poll_event : ℕ → Site → Option Site
start_poll_event tid s = do l ← add_event tid s.conn.event s.loop; some (with_loop l s)

unfoldable pub stop_poll_event : ℕ → Site → Site
stop_poll_event tid s = with_loop (remove_event tid s.conn.event s.loop) s

-- `m_event.enableWrite(on)`, then `m_loop->modifyEvent(&m_event)`.
unfoldable pub request_write : ℕ → Bool → Site → Option Site
request_write tid on s = do
  l ← modify_event tid s.conn.event (put_event (enable_write on (event_of s)) s).loop
  some (with_loop l s)

unfoldable pub send_msg : ℕ → List ℕ → ℤ → Site → Option Site
send_msg tid msg len s = do
  (n, b) ← append msg len s.conn.wbuf
  request_write tid true (put_wbuf b s)

abbrev pub add_task : ℕ → ℕ → ℕ → Bool → Site → Site
add_task tid f ms repeat s =
    let c : Connection = s.conn in
    record s {
      loop = add_timer tid (entry f ms repeat) s.loop;
      conn = record c { timer_list = c.timer_list ++ f ∷ [] };
    }

-- The timers of the list: those in the wheel, and those that addTimer left in m_pending.
unfoldable pub is_listed : ℕ → List ℕ → Bool
is_listed f [] = false
is_listed f (g ∷ gs) = f == g || is_listed f gs

abbrev pub disable_listed : List ℕ → Option Entry → Option Entry
disable_listed fs none = none
disable_listed fs (some e) = if is_listed e.callback fs then some (disable e) else some e

abbrev pub disable_all : List ℕ → Wheel → Wheel
disable_all fs w = record w { slots = map (λ (l : TimerList). map (disable_listed fs) l) w.slots }

abbrev pub disable_task : List ℕ → Task → Task
disable_task fs (timer_task e) =
    if is_listed e.callback fs then timer_task (disable e) else timer_task e
disable_task fs t = t

-- handleClose up to the callback.
unfoldable pub tear_down : ℕ → Site → Site
tear_down tid s =
    let s₁ : Site = stop_poll_event tid (put_event (set_revents no_events (event_of s)) s) in
    let s₂ : Site = put_event (close (event_of s₁)) s₁ in
    let l : Loop = s₂.loop in
    let w : Work = l.work in
    let c : Connection = s₂.conn in
    record s₂ {
      loop = record l {
        work = record w { timer_wheel = disable_all c.timer_list w.timer_wheel };
        pending = map (disable_task c.timer_list) l.pending;
      };
      conn = record c { timer_list = [] };
      closed = s₁.closed ++ get_fd s₁ ∷ [];
    }

-- A close callback that is not set fails the assert.
unfoldable pub handle_close : Option (Site → Site) → ℕ → Site → Option Site
handle_close none tid s = none
handle_close (some f) tid s = some (f (tear_down tid s))

abbrev pub handle_error : Option (Site → Site) → ℕ → Site → Option Site
handle_error f tid s = handle_close f tid s

unfoldable pub shutdown : Option (Site → Site) → ℕ → Site → Site
shutdown f tid s =
    let s₁ : Site = Event.call f (stop_poll_event tid s) in
    record s₁ { closed = s₁.closed ++ get_fd s₁ ∷ [] }

abbrev pub econnreset : ℕ
econnreset = 104

-- errno after a read: a call that succeeds leaves the old value.
abbrev pub errno_after : ℕ → Answer → ℕ
errno_after old (Answer.done bytes) = old
errno_after old (Answer.failed e) = e

abbrev pub is_zero : ℤ → Bool
is_zero (pos n) = n == 0
is_zero (negsuc n) = false

-- `old` is errno before the call; the message callback may fault.
unfoldable pub handle_read :
    (Site → Option Site) → Option (Site → Site) → (ℕ → Answer) → ℕ → ℕ → Site → Option Site
handle_read message f read old tid s = do
  (n, b) ← recv read s.conn.rbuf
  let s₁ = put_rbuf b s
  let e = errno_after old (read (Buffer.remain_size s.conn.rbuf))
  let close = handle_close f tid s₁
  let talk = (do s₂ ← message s₁; some (put_rbuf (clear s₂.conn.rbuf) s₂))
  if is_zero n || e == econnreset then close else talk

-- Some bytes were sent, and not all.
abbrev pub is_partial : ℤ → ℕ → Bool
is_partial (pos n) size = ltb n size && ltb 0 n
is_partial (negsuc n) size = false

unfoldable pub handle_write : (List ℕ → ℤ) → ℕ → Site → Option Site
handle_write write tid s =
    let r : ℤ × Buffer = send write s.conn.wbuf in
    if ltb 0 (data_size s.conn.wbuf)
    then (if is_partial r.0 (data_size s.conn.wbuf)
        then some (put_wbuf r.1 s)
        else request_write tid false (put_wbuf r.1 s))
    else request_write tid false s

-- The map of TCPServer, an association list with each key once.
unfoldable pub is_key : ℤ → ℤ → Bool
is_key (pos a) (pos b) = a == b
is_key (negsuc a) (negsuc b) = a == b
is_key (pos a) (negsuc b) = false
is_key (negsuc a) (pos b) = false

unfoldable pub lookup : ℤ → List (ℤ × ℕ) → Option ℕ
lookup k [] = none
lookup k (p ∷ ps) = let rest : Option ℕ = lookup k ps in if is_key k p.0 then some p.1 else rest

unfoldable pub erase : ℤ → List (ℤ × ℕ) → List (ℤ × ℕ)
erase k [] = []
erase k (p ∷ ps) = let rest : List (ℤ × ℕ) = erase k ps in if is_key k p.0 then rest else p ∷ rest

-- TCPServer::onClose.
unfoldable pub on_close : Site → Site
on_close s = record s { conn_map = erase (get_fd s) s.conn_map }

-- TCPServer::onNewConnection for a loop that was chosen; the connected callback is `connected`, and
-- it is the loop's thread that runs `init`.
unfoldable pub init : (Site → Option Site) → ℕ → Site → Option Site
init connected tid s = do s₁ ← connected s; start_poll_event tid s₁

unfoldable pub on_new_connection :
    (ℕ → List ℕ) → (Site → Option Site) → ℕ → ℕ → ℤ → Site → Option Site
on_new_connection new_chars connected tid k fd s = do
  s₁ ← init connected tid (construct new_chars k fd s)
  some (record s₁ { conn_map = (fd, k) ∷ erase fd s₁.conn_map })

-- EchoServer::onMessage: `sendMsg(read_ptr(), data_size())`.
unfoldable pub on_message : ℕ → Site → Option Site
on_message tid s =
    let b : Buffer = s.conn.rbuf in send_msg tid (drop b.rptr b.mem) (pos (data_size b)) s
