-- ===== src/Connection/Turns.antt =====
-- src/net/TCPConnection.cpp (handleRead, handleWrite) with the message callback of
-- example/EchoServer.h: one turn of a connection.
use generic_server.Prelude.{
  ◌&&◌, no_items, ℕ, ◌≡◌, ◌≢◌, min, refl, sym, ap, ap₂, ◌∙◌, Bool, true, false, Option, some, List,
  [], ◌++◌, take, arith, length, append-nil, ltb, ◌<◌, Bool-cases, inl, inr,
}
use mathlib.Core.Path.{subst}
use generic_server.Prelude.Int.{pos_part, ℤ}
use generic_server.Buffer.{Buffer, Answer, data_size, remain_size, to_string, clear}
use generic_server.Buffer.Stream.{
  Writes, read_in_lem, length-to_string, delivered, result, sent, Sends,
}
use generic_server.Connection.Defs.{
  Site, put_wbuf, put_rbuf, send, handle_read, handle_write, is_partial,
}
use generic_server.Connection.Write.{requested, request_write-some, send_lem, nothing_sent}
use generic_server.Connection.Session.{
  IsOpen, IsTalking, Turn, reads, writes, IsLawful, accepted, turn, IsKeen, IsTaking,
}
use generic_server.Connection.Write.{asks_output, epoll_asks, output_after, epoll_after}
use generic_server.Connection.Open.{
  read_in-size, send-count, takes_all, none_left, asked-IsOpen, message, cleared-IsTalking, goes_on,
}

-- A turn echoes; if it takes bytes, EPOLLOUT is still asked for unless nothing waits.
abbrev pub Turned : ℕ → Turn → Site → Option (List ℕ × List ℕ × Site) → Type 0
Turned tid x s r =
    (i : List ℕ) × (o : List ℕ) × (t : Site) × (r ≡ some (i, o, t))
    × IsTalking tid t
    × (to_string s.conn.wbuf ++ i ≡ o ++ to_string t.conn.wbuf)
    × (IsTaking x → IsKeen s → IsKeen t)

module _ (tid : ℕ) where
  module _ (f : Option (Site → Site)) where
    reads-Turned :
        (read : ℕ → Answer) (old : ℕ) (s : Site)
        → IsTalking tid s
        → IsLawful (reads read old)
        → Turned tid (reads read old) s (turn tid f (reads read old) s)
    unfolding turn handle_read
    reads-Turned read old s (k, z, room) (r, stays, o) =
        let a : Answer = read (remain_size s.conn.rbuf) in
        let (b, g, i, h) = read_in_lem read s.conn.rbuf r k.reads in
        let came : to_string b ≡ delivered a = h ∙ ap (λ (l : List ℕ). l ++ delivered a) z in
        let size : data_size b ≡ length (delivered a) =
          sym (length-to_string b i) ∙ ap (λ (l : List ℕ). length l) came in
        let (t, m, u, w, y, q, p) =
          message tid (put_rbuf b s)
            (record { own = k.own; polls = k.polls; writes = k.writes; reads = i }) in
        (
          accepted a s,
          [],
          put_rbuf (clear t.conn.rbuf) t,
          rw (g, goes_on tid a old (stays (remain_size s.conn.rbuf) room) o, m) refl,
          cleared-IsTalking tid t u (
              omega (
                arith,
                room,
                ap (λ (x : Buffer). x.size) y,
                read_in-size read s.conn.rbuf b (result a) g,
              )),
          sym (
              w
              ∙ ap₂
                  (λ (n : ℕ) (l : List ℕ).
                    to_string s.conn.wbuf ++ take (min n (remain_size s.conn.wbuf)) l)
                  size came),
          λ _ _. inr (q, p),
        )

    -- What a turn leaves: an open connection, with the bytes of the write buffer but for those
    -- sent.
    wrote :
        (s t : Site) (r : ℤ × Buffer)
        → IsTalking tid s
        → Sends s.conn.wbuf r
        → IsOpen tid t
        → t.conn.wbuf ≡ r.1
        → t.conn.rbuf ≡ s.conn.rbuf
        → IsTalking tid t
          × (to_string s.conn.wbuf ++ [] ≡ sent r.0 s.conn.wbuf ++ to_string t.conn.wbuf)
    wrote s t r k (v, e) m w b = (
      (
        m,
        ap (λ (x : Buffer). to_string x) b ∙ k.1,
        subst (λ (x : Buffer). 0 < remain_size x) (sym b) k.2,
      ),
      append-nil (to_string s.conn.wbuf)
          ∙ sym e
          ∙ ap (λ (x : Buffer). sent r.0 s.conn.wbuf ++ to_string x) (sym w),
    )

    module _ (write : List ℕ → ℤ) (s : Site) (k : IsTalking tid s) (l : Writes write) where
      outcome : ℤ × Buffer
      outcome = send write s.conn.wbuf

      sends : Sends s.conn.wbuf outcome
      unfolding outcome
      sends = send_lem write s.conn.wbuf l k.0.writes

      sent_IsOpen : IsOpen tid (put_wbuf outcome.1 s)
      sent_IsOpen = record { own = k.0.own; polls = k.0.polls; writes = sends.0; reads = k.0.reads }

      -- handleWrite ends in one of three ways.
      ends :
          (t : Site) × (handle_write write tid s ≡ some t)
          × IsOpen tid t
          × (t.conn.wbuf ≡ outcome.1)
          × (t.conn.rbuf ≡ s.conn.rbuf)
          × (asks_output t ≡ (is_partial outcome.0 (data_size s.conn.wbuf) && asks_output s))
          × (epoll_asks t ≡ (is_partial outcome.0 (data_size s.conn.wbuf) && epoll_asks s))
      unfolding handle_write outcome
      ends = elim (Bool-cases (ltb 0 (data_size s.conn.wbuf))) [
        | inl e ↦ elim (Bool-cases (is_partial outcome.0 (data_size s.conn.wbuf))) [
          | inl p ↦
              (put_wbuf outcome.1 s, rw (e, p) refl, sent_IsOpen, refl, refl, rw p refl, rw p refl)
          | inr p ↦ (
            requested tid (put_wbuf outcome.1 s) k.0.own k.0.polls false,
            rw (e, p) (request_write-some tid (put_wbuf outcome.1 s) k.0.own k.0.polls false),
            asked-IsOpen tid (put_wbuf outcome.1 s) sent_IsOpen false,
            refl,
            refl,
            rw p (output_after tid (put_wbuf outcome.1 s) k.0.own k.0.polls false),
            rw p (epoll_after tid (put_wbuf outcome.1 s) k.0.own k.0.polls false),
          )
        ]
        | inr e ↦ (
          requested tid s k.0.own k.0.polls false,
          rw e (request_write-some tid s k.0.own k.0.polls false),
          asked-IsOpen tid s k.0 false,
          sym (ap (λ (r : ℤ × Buffer). r.1) (nothing_sent write s.conn.wbuf e)),
          refl,
          rw (nothing_sent write s.conn.wbuf e) (output_after tid s k.0.own k.0.polls false),
          rw (nothing_sent write s.conn.wbuf e) (epoll_after tid s k.0.own k.0.polls false),
        )
      ]

      keen :
          (t : Site)
          → t.conn.wbuf ≡ outcome.1
          → asks_output t ≡ (is_partial outcome.0 (data_size s.conn.wbuf) && asks_output s)
          → epoll_asks t ≡ (is_partial outcome.0 (data_size s.conn.wbuf) && epoll_asks s)
          → IsTaking (writes write)
          → IsKeen s
          → IsKeen t
      unfolding outcome
      keen t w q r h i = elim (Bool-cases (ltb 0 (data_size s.conn.wbuf))) [
        | inr e ↦
            let nothing : to_string s.conn.wbuf ≡ [] =
              no_items (to_string s.conn.wbuf)
                (omega (arith, length-to_string s.conn.wbuf k.0.writes, idle e)) in
            inl (
              ap (λ (x : Buffer). to_string x)
                (w ∙ ap (λ (r : ℤ × Buffer). r.1) (nothing_sent write s.conn.wbuf e))
              ∙ nothing)
        | inl e ↦ elim (Bool-cases (is_partial outcome.0 (data_size s.conn.wbuf))) [
          | inl p ↦ inr (
            q ∙ ap₂ (λ (x y : Bool). x && y) p (asks e i).0,
            r ∙ ap₂ (λ (x y : Bool). x && y) p (asks e i).1,
          )
          | inr p ↦ inl (
              ap (λ (x : Buffer). to_string x) w
              ∙ none_left s.conn.wbuf outcome k.0.writes sends
                  (takes_all outcome.0 (data_size s.conn.wbuf) p (took e)))
        ]
      ]
        where
          idle : ltb 0 (data_size s.conn.wbuf) ≡ false → data_size s.conn.wbuf ≡ 0
          idle e = ground arith

          some_wait : ltb 0 (data_size s.conn.wbuf) ≡ true → to_string s.conn.wbuf ≢ []
          some_wait e z =
              ground
                (arith, e, length-to_string s.conn.wbuf k.0.writes, ap (λ (x : List ℕ). length x) z)

          asks :
              ltb 0 (data_size s.conn.wbuf) ≡ true
              → IsKeen s
              → (asks_output s ≡ true) × (epoll_asks s ≡ true)
          asks e (inl z) = absurd (some_wait e z)
          asks e (inr a) = a

          took : ltb 0 (data_size s.conn.wbuf) ≡ true → 0 < pos_part outcome.0
          took e =
              subst (λ (x : ℤ). 0 < pos_part x) (sym (send-count write s.conn.wbuf e))
                (h (to_string s.conn.wbuf) (some_wait e))

      writes-Turned : Turned tid (writes write) s (turn tid f (writes write) s)
      unfolding turn outcome
      writes-Turned =
          let (t, e, m, w, b, q, r) = ends in
          let (i, c) = wrote s t outcome k sends m w b in
          ([], sent outcome.0 s.conn.wbuf, t, rw e refl, i, c, keen t w q r)

    pub turn-Turned :
        (x : Turn) (s : Site) → IsTalking tid s → IsLawful x → Turned tid x s (turn tid f x s)
    turn-Turned (reads read old) s k l = reads-Turned read old s k l
    turn-Turned (writes write) s k l = writes-Turned write s k l
