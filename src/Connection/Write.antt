-- ===== src/Connection/Write.antt =====
-- src/net/TCPConnection.cpp (handleWrite): the bytes that are sent and the interest in EPOLLOUT.
use generic_server.Prelude.{
  ℕ, ◌≡◌, ◌<◌, refl, ap, ap₂, ◌∙◌, Bool, true, false, ◌&&◌, some, List, [], ◌∷◌, ◌++◌, ltb, leb,
  lt→ltb, if◌then◌else◌, Bool-cases, inl, inr, arith,
}
use generic_server.Prelude.Int.{ℤ, pos, negsuc}
use generic_server.Buffer.{Buffer, data_size, to_string, write_out, advance}
use generic_server.Buffer.Valid.{IsValid}
use generic_server.Buffer.Stream.{Writes, Sends, write_out_lem}
use generic_server.Event.{Event, Mask, enable_write}
use generic_server.Loop.{
  Loop, run_task, modify_task, modify_event, ctl_mod, ctl_add, ctl_del, Operation, Control,
  is_in_loop_thread,
}
use generic_server.Connection.Defs.{
  is_key, Site, event_of, get_fd, put_event, put_wbuf, with_loop, request_write, handle_write, send,
  is_partial,
}
use generic_server.Connection.Close.{get_put, controls}

abbrev pub asks_output : Site → Bool
asks_output s = (event_of s).events.output

-- Whether one call of epoll_ctl asks for EPOLLOUT, and whether the last one for a descriptor did.
abbrev pub output_of : Operation → Mask → Bool
output_of ctl_add m = m.output
output_of ctl_mod m = m.output
output_of ctl_del m = false

unfoldable pub heard : ℤ → Bool → List Control → Bool
heard fd b [] = b
heard fd b (c ∷ cs) = heard fd (if is_key fd c.1 then output_of c.0 c.2 else b) cs

-- epoll was last told to wait for EPOLLOUT on the connection's descriptor.
abbrev pub epoll_asks : Site → Bool
epoll_asks s = heard (get_fd s) false (controls s)

is_key_self : (k : ℤ) → is_key k k ≡ true
unfolding is_key
is_key_self (pos n) = ground arith
is_key_self (negsuc n) = ground arith

heard-told :
    (fd : ℤ) (b : Bool) (cs : List Control) (m : Mask)
    → heard fd b (cs ++ (ctl_mod, fd, m) ∷ []) ≡ m.output
unfolding heard
heard-told fd b [] m = rw (is_key_self fd) refl
heard-told fd b (c ∷ cs) m = heard-told fd (if is_key fd c.1 then output_of c.0 c.2 else b) cs m

-- The interest in EPOLLOUT is b, in the event and for the poller; nothing else of it changes.
pub record Requested (b : Bool) (s : Site) (t : Site) : Type 0 where
  pub event_after : event_of t ≡ enable_write b (event_of s)
  pub told :
      t.loop.work.poller.controls
      ≡ s.loop.work.poller.controls
        ++ (ctl_mod, get_fd s, (enable_write b (event_of s)).events) ∷ []
  pub kept : t.conn ≡ s.conn

modify_ok :
    (tid k : ℕ) (l : Loop)
    → is_in_loop_thread tid l ≡ true
    → (l.work.events k).polling ≡ true
    → modify_event tid k l ≡ some (record l { work = run_task (modify_task k) l.work })
unfolding modify_event
modify_ok tid k l own p = rw (p, own)

module _ (tid : ℕ) (s : Site) (own : is_in_loop_thread tid s.loop ≡ true)
    (polls : (event_of s).polling ≡ true) where
  module _ (b : Bool) where
    abbrev marked : Site
    marked = put_event (enable_write b (event_of s)) s

    marked_own : is_in_loop_thread tid marked.loop ≡ true
    unfolding put_event
    marked_own = own

    marked_event : event_of marked ≡ enable_write b (event_of s)
    marked_event = get_put (enable_write b (event_of s)) s

    marked_told : marked.loop.work.poller.controls ≡ s.loop.work.poller.controls
    unfolding put_event
    marked_told = refl

    marked_polls : (marked.loop.work.events s.conn.event).polling ≡ true
    unfolding put_event
    marked_polls = ap (λ (e : Event). e.polling) marked_event ∙ polls

    abbrev pub requested : Site
    requested =
        let l : Loop = marked.loop in
        with_loop (record l { work = run_task (modify_task s.conn.event) l.work }) s

    pub request_write-some : request_write tid b s ≡ some requested
    unfolding request_write
    request_write-some = rw (modify_ok tid s.conn.event marked.loop marked_own marked_polls)

    requested_told :
        requested.loop.work.poller.controls
        ≡ marked.loop.work.poller.controls
          ++ (ctl_mod, get_fd marked, (event_of marked).events) ∷ []
    unfolding run_task put_event
    requested_told = refl

    requested_event : event_of requested ≡ event_of marked
    unfolding run_task put_event
    requested_event = refl

    pub request_write_lem : Requested b s requested
    request_write_lem = record {
      event_after = requested_event ∙ marked_event;
      told =
          requested_told
          ∙ ap₂ (λ (x : List Control) (e : Event). x ++ (ctl_mod, e.fd, e.events) ∷ []) marked_told
              marked_event;
      kept = refl;
    }

    pub output_after : asks_output requested ≡ b
    output_after = ap (λ (e : Event). e.events.output) request_write_lem.event_after

    pub epoll_after : epoll_asks requested ≡ b
    epoll_after =
        ap₂ (λ (e : Event) (cs : List Control). heard e.fd false cs) request_write_lem.event_after
          request_write_lem.told
        ∙ heard-told (get_fd s) false (controls s) (enable_write b (event_of s)).events

pub send_lem : (write : List ℕ → ℤ) (b : Buffer) → Writes write → IsValid b → Sends b (send write b)
unfolding send
send_lem write b w v = elim (Bool-cases (leb (data_size b) 0)) [
  | inl e ↦ rw e (v, refl)
  | inr e ↦ rw e (write_out_lem write b w v)
]

nothing_left : (n : ℕ) → ltb 0 n ≡ false → leb n 0 ≡ true
nothing_left n e = ground arith

pub nothing_sent :
    (write : List ℕ → ℤ) (b : Buffer) → ltb 0 (data_size b) ≡ false → send write b ≡ (negsuc 0, b)
unfolding send
nothing_sent write b e = rw (nothing_left (data_size b) e)

-- After handleWrite the bytes that the socket took are gone from the front of the write buffer, and
-- the interest in EPOLLOUT stays as it was if it took some and not all, without a call of
-- epoll_ctl; if not, it ends, and epoll_ctl is told the events without EPOLLOUT.
abbrev pub told_after : Bool → Site → List Control
told_after partial s =
    if partial then [] else (ctl_mod, get_fd s, (enable_write false (event_of s)).events) ∷ []

abbrev pub Wrote : ℤ × Buffer → Site → Site → Type 0
Wrote r s t =
    Sends s.conn.wbuf (r.0, t.conn.wbuf)
    × (asks_output t ≡ (is_partial r.0 (data_size s.conn.wbuf) && asks_output s))
    × (controls t ≡ controls s ++ told_after (is_partial r.0 (data_size s.conn.wbuf)) s)

module _ (write : List ℕ → ℤ) (tid : ℕ) (s : Site) (own : is_in_loop_thread tid s.loop ≡ true)
    (polls : (event_of s).polling ≡ true) (w : Writes write) (v : IsValid s.conn.wbuf) where
  abbrev outcome : ℤ × Buffer
  outcome = send write s.conn.wbuf

  abbrev sent_site : Site
  sent_site = put_wbuf outcome.1 s

-- When send fails although bytes wait, as it does with EAGAIN when the peer reads slowly,
-- handleWrite in the loop's thread keeps the bytes, but it ends the interest in EPOLLOUT, for the
-- event and for the poller: nothing asks for them to be sent later.
handle_write_stalls :
    (write : List ℕ → ℤ) (tid : ℕ) (s : Site)
    → is_in_loop_thread tid s.loop ≡ true
    → (event_of s).polling ≡ true
    → 0 < data_size s.conn.wbuf
    → write (to_string s.conn.wbuf) ≡ negsuc 0
    → (t : Site) × (handle_write write tid s ≡ some t)
      × (t.conn.wbuf ≡ s.conn.wbuf)
      × (asks_output t ≡ false)
      × (t.loop.work.poller.controls
          ≡ s.loop.work.poller.controls
            ++ (ctl_mod, get_fd s, (enable_write false (event_of s)).events) ∷ [])
unfolding handle_write send write_out advance
handle_write_stalls write tid s own polls some_left fails =
    let e : ltb 0 (data_size s.conn.wbuf) ≡ true = lt→ltb 0 (data_size s.conn.wbuf) some_left in
    let z : leb (data_size s.conn.wbuf) 0 ≡ false = ground arith in
    (
      requested tid s own polls false,
      rw (e, z, fails) (request_write-some tid s own polls false),
      refl,
      output_after tid s own polls false,
      (request_write_lem tid s own polls false).told,
    )
