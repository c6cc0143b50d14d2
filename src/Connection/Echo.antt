-- ===== src/Connection/Echo.antt =====
-- src/net/TCPConnection.cpp (handleRead, sendMsg) with the message callback of
-- example/EchoServer.h.
use generic_server.Prelude.{
  ℕ, ◌≡◌, ◌≢◌, suc, min, refl, sym, ap, ap₂, ◌∙◌, true, false, Option, some, List, [], ◌∷◌, ◌++◌,
  ◌==◌, take, arith, length,
}
use mathlib.Core.Path.{subst}
use generic_server.Buffer.{Answer, data_size, remain_size, to_string, append_buffer, clear}
use generic_server.Buffer.Valid.{IsValid, append_buffer_lem}
use generic_server.Buffer.Stream.{Reads, Receives, read_in_lem, length-to_string}
use generic_server.Loop.{is_in_loop_thread}
use generic_server.Connection.Defs.{
  Site, event_of, put_wbuf, put_rbuf, send_msg, on_message, handle_read, econnreset,
}
use generic_server.Connection.Write.{requested, request_write-some, output_after, asks_output}

-- The bytes that came go behind those that wait to be sent, as far as there is room; the read
-- buffer is empty and EPOLLOUT is asked for.
abbrev Echoed : List ℕ → Site → Site → Type 0
Echoed bytes s t =
    (to_string t.conn.wbuf
      ≡ to_string s.conn.wbuf ++ take (min (length bytes) (remain_size s.conn.wbuf)) bytes)
    × (to_string t.conn.rbuf ≡ [])
    × (asks_output t ≡ true)

module _ (tid : ℕ) (s : Site) (own : is_in_loop_thread tid s.loop ≡ true)
    (polls : (event_of s).polling ≡ true) (v : IsValid s.conn.wbuf) (u : IsValid s.conn.rbuf) where
  on_message_lem :
      (t : Site) × (on_message tid s ≡ some t)
      × (to_string t.conn.wbuf
          ≡ to_string s.conn.wbuf
            ++ take (min (data_size s.conn.rbuf) (remain_size s.conn.wbuf)) (to_string s.conn.rbuf))
      × (asks_output t ≡ true)
  unfolding on_message send_msg append_buffer
  on_message_lem =
      let (b, e, i, f, z) = append_buffer_lem s.conn.rbuf s.conn.wbuf v u in
      (
        requested tid (put_wbuf b s) own polls true,
        rw e (request_write-some tid (put_wbuf b s) own polls true),
        f,
        output_after tid (put_wbuf b s) own polls true,
      )

not_zero : (n : ℕ) → (suc n == 0) ≡ false
not_zero n = ground arith

not_reset : (n : ℕ) → n ≢ econnreset → (n == econnreset) ≡ false
not_reset n o = ground (arith, o)

-- In the loop's thread, when the socket delivers some bytes and errno was not left at ECONNRESET,
-- handleRead with the echoing callback puts these behind those that wait to be sent, as many as
-- there is room for, asks for EPOLLOUT, and leaves the read buffer empty. The connection is polled,
-- its buffers are valid and nothing was left to read.
handle_read_echoes :
    (read : ℕ → Answer) (old tid : ℕ) (s : Site) (f : Option (Site → Site)) (b : ℕ) (bytes : List ℕ)
    → is_in_loop_thread tid s.loop ≡ true
    → (event_of s).polling ≡ true
    → IsValid s.conn.wbuf
    → IsValid s.conn.rbuf
    → to_string s.conn.rbuf ≡ []
    → Reads read
    → read (remain_size s.conn.rbuf) ≡ Answer.done (b ∷ bytes)
    → old ≢ econnreset
    → (t : Site) × (handle_read (on_message tid) f read old tid s ≡ some t) × Echoed (b ∷ bytes) s t
unfolding handle_read
handle_read_echoes read old tid s f b bytes own polls v u z r e o =
    let q : Receives (Answer.done (b ∷ bytes)) read s.conn.rbuf =
      subst (λ (a : Answer). Receives a read s.conn.rbuf) e (read_in_lem read s.conn.rbuf r u) in
    let (b', g, i, h) = q in
    let came : to_string b' ≡ b ∷ bytes = h ∙ ap (λ (l : List ℕ). l ++ b ∷ bytes) z in
    let size : data_size b' ≡ length (b ∷ bytes) = sym (length-to_string b' i) ∙ ap length came in
    let (t, m, w, a) = on_message_lem tid (put_rbuf b' s) own polls v i in
    (
      put_rbuf (clear t.conn.rbuf) t,
      rw (g, e, not_zero (length bytes), not_reset old o, m),
      (
        w
            ∙ ap₂
                (λ (n : ℕ) (l : List ℕ).
                  to_string s.conn.wbuf ++ take (min n (remain_size s.conn.wbuf)) l)
                size came,
        refl,
        a,
      ),
    )
