-- ===== src/Connection/Open.antt =====
-- src/net/TCPConnection.cpp with the message callback of example/EchoServer.h: what keeps a
-- connection open in its loop.
use generic_server.Prelude.{
  ◌≤◌, leb, length-append, length-take, no_items, ℕ, ◌≡◌, ◌≢◌, min, refl, sym, ap, ◌∙◌, Bool, true,
  false, ◌||◌, some, List, [], ◌∷◌, ◌++◌, ◌==◌, take, arith, length, ltb, ◌+◌, ◌<◌, bind_some,
  some_eq,
}
use generic_server.Prelude.Int.{pos_part, negsuc, ℤ, pos}
use generic_server.Prelude.Memory.{copy_in}
use generic_server.Buffer.{
  Buffer, Answer, advance, write_out, receive, read_in, data_size, remain_size, to_string,
  append_buffer, clear,
}
use generic_server.Buffer.Valid.{IsValid, append_buffer_lem}
use generic_server.Buffer.Stream.{length-to_string, result, sent, Sends}
use generic_server.Event.{Event}
use generic_server.Connection.Defs.{
  Site, put_event, put_wbuf, put_rbuf, send_msg, on_message, send, econnreset, errno_after, is_zero,
  is_partial,
}
use generic_server.Connection.Write.{requested, request_write-some, request_write_lem}
use generic_server.Connection.Session.{IsOpen, IsTalking, Stays}
use generic_server.Connection.Write.{asks_output, epoll_asks, output_after, epoll_after}

receive-size : (a : Answer) (b b' : Buffer) (n : ℤ) → receive a b ≡ some (n, b') → b'.size ≡ b.size
unfolding receive
receive-size (Answer.done bytes) b b' n e =
    let (mem, f, g) =
      bind_some (copy_in b.wptr bytes (pos (length bytes)) b.mem)
        (λ mem. some (pos (length bytes), record b { mem = mem; wptr = b.wptr + length bytes }))
        (n, b') e in
    ap (λ (r : ℤ × Buffer). r.1.size) (sym (some_eq g))
receive-size (Answer.failed x) b b' n e = ap (λ (r : ℤ × Buffer). r.1.size) (sym (some_eq e))

pub read_in-size :
    (read : ℕ → Answer) (b b' : Buffer) (n : ℤ) → read_in read b ≡ some (n, b') → b'.size ≡ b.size
unfolding read_in
read_in-size read b b' n e = receive-size (read (remain_size b)) b b' n e

advance-count : (k : ℤ) (b : Buffer) → (advance k b).0 ≡ k
unfolding advance
advance-count (pos n) b = refl
advance-count (negsuc n) b = refl

pub send-count :
    (write : List ℕ → ℤ) (b : Buffer)
    → ltb 0 (data_size b) ≡ true
    → (send write b).0 ≡ write (to_string b)
unfolding send write_out
send-count write b e =
    let z : leb (data_size b) 0 ≡ false = ground (arith, e) in
    rw z (advance-count (write (to_string b)) b)

pub takes_all : (k : ℤ) (n : ℕ) → is_partial k n ≡ false → 0 < pos_part k → n ≤ pos_part k
takes_all (pos m) n e h = ground (arith, e, h)
takes_all (negsuc m) n e h = absurd (omega (arith, h))

-- What is left when the socket took all that waited.
pub none_left :
    (b : Buffer) (r : ℤ × Buffer)
    → IsValid b
    → Sends b r
    → data_size b ≤ pos_part r.0
    → to_string r.1 ≡ []
none_left b r v (u, e) h = no_items (to_string r.1) (
    omega (
      arith,
      h,
      length-to_string b v,
      ap (λ (l : List ℕ). length l) e,
      length-append (sent r.0 b) (to_string r.1),
      length-take (pos_part r.0) (to_string b),
    ))

module _ (tid : ℕ) where
  pub asked-IsOpen :
      (s : Site) (k : IsOpen tid s) (on : Bool) → IsOpen tid (requested tid s k.own k.polls on)
  asked-IsOpen s k on = record {
    own = unfold put_event in k.own;
    polls =
        ap (λ (e : Event). e.polling) (request_write_lem tid s k.own k.polls on).event_after
        ∙ k.polls;
    writes = k.writes;
    reads = k.reads;
  }

  -- The message callback, as on_message_lem has it, with the state of the connection after it.
  pub message :
      (s : Site)
      → IsOpen tid s
      → (t : Site) × (on_message tid s ≡ some t)
        × IsOpen tid t
        × (to_string t.conn.wbuf
            ≡ to_string s.conn.wbuf
              ++ take
                  (min (data_size s.conn.rbuf) (remain_size s.conn.wbuf))
                  (to_string s.conn.rbuf))
        × (t.conn.rbuf ≡ s.conn.rbuf)
        × (asks_output t ≡ true)
        × (epoll_asks t ≡ true)
  unfolding on_message send_msg append_buffer
  message s k =
      let (b, e, i, g, z) = append_buffer_lem s.conn.rbuf s.conn.wbuf k.writes k.reads in
      let m : IsOpen tid (put_wbuf b s) = record {
        own = k.own;
        polls = k.polls;
        writes = i;
        reads = k.reads;
      } in
      (
        requested tid (put_wbuf b s) k.own k.polls true,
        rw e (request_write-some tid (put_wbuf b s) k.own k.polls true),
        asked-IsOpen (put_wbuf b s) m true,
        g,
        refl,
        output_after tid (put_wbuf b s) k.own k.polls true,
        epoll_after tid (put_wbuf b s) k.own k.polls true,
      )

  pub cleared-IsTalking :
      (t : Site)
      → IsOpen tid t
      → 0 < t.conn.rbuf.size
      → IsTalking tid (put_rbuf (clear t.conn.rbuf) t)
  cleared-IsTalking t k h = (
    record { own = k.own; polls = k.polls; writes = k.writes; reads = omega (arith, k.reads) },
    refl,
    omega (arith, h),
  )

  pub goes_on :
      (a : Answer) (old : ℕ)
      → Stays a
      → old ≢ econnreset
      → (is_zero (result a) || (errno_after old a == econnreset)) ≡ false
  goes_on (Answer.done []) old h o = absurd h
  goes_on (Answer.done (b ∷ bytes)) old h o = ground (arith, o)
  goes_on (Answer.failed e) old h o = ground (arith, h)
