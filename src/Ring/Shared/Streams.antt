-- ===== src/Ring/Shared/Streams.antt =====
-- src/log/RingBuffer.cpp: append and retrive by two threads at once are a queue of bytes.
use mathlib.Core.Path.{subst}
use generic_server.Prelude.{
  ℕ, ◌≤◌, ◌<◌, ◌≡◌, refl, sym, ap, ◌∙◌, ◌⊎◌, inl, inr, Bool-cases, some, some_eq, List, [], ◌++◌,
  length, arith, leb, append_assoc, append-nil,
}
use generic_server.Ring.Defs.{Ring, contents, avail_size, data_size}
use generic_server.Ring.Valid.{IsValid}
use generic_server.Ring.Shared.Defs.{
  Writer, w_idle, write_step, call_append, published, Reader, r_idle, read_step, call_retrive,
  freed, System, Step, appends, writes, retrieves, reads, Reach, start, next,
}
use generic_server.Ring.Shared.Writer.{write_step-Writes}
use generic_server.Ring.Shared.States.{WriterOk, Wrote, ReaderOk, Obtained}
use generic_server.Ring.Shared.Reader.{read_step-Reads}
use generic_server.Ring.Shared.Stable.{WriterOk-Shrank, Wrote-Shrank, ReaderOk-Grew, Obtained-Grew}

-- The ring and both threads are in order, and all bytes are accounted for.
pub record IsSound (base : List ℕ) (s : System) : Type 0 where
  pub valid : IsValid s.ring
  pub writer_ok : WriterOk s.ring s.writer
  pub reader_ok : ReaderOk s.ring s.reader
  pub wrote : Wrote s.call s.sent s.ring s.writer
  pub obtained : Obtained s.ask s.got s.ring s.reader
  pub account : base ++ s.sent ≡ s.got ++ contents s.ring

module _ {base : List ℕ} {s : System} (k : IsSound base s) where
  calls_append :
      (bytes : List ℕ)
      → (0 < s.ring.out_pos) ⊎ (length bytes ≤ avail_size s.ring)
      → WriterOk s.ring (call_append bytes s.ring)
  unfolding call_append
  calls_append bytes h = elim (Bool-cases (leb (length bytes) 0)) [
    | inl e ↦ rw e tt
    | inr e ↦ rw e ((k.valid.out_range, omega arith), h)
  ]

  calls_retrive : (n : ℕ) → ReaderOk s.ring (call_retrive n s.ring)
  unfolding call_retrive
  calls_retrive n = elim (Bool-cases (leb n 0)) [
    | inl e ↦ rw e tt
    | inr e ↦ rw e (k.valid.in_range, omega arith)
  ]

  begins :
      (bytes : List ℕ)
      → Wrote
          (record { bytes = bytes; before = s.sent; room = avail_size s.ring })
          s.sent
          s.ring
          (call_append bytes s.ring)
  unfolding call_append
  begins bytes = elim (Bool-cases (leb (length bytes) 0)) [
    | inl e ↦ rw e (sym (append-nil s.sent), ground arith)
    | inr e ↦ rw e (refl, refl, refl)
  ]

  asks :
      (n : ℕ)
      → Obtained
          (record { want = n; before = s.got; shown = data_size s.ring })
          s.got
          s.ring
          (call_retrive n s.ring)
  unfolding call_retrive
  asks n = elim (Bool-cases (leb n 0)) [
    | inl e ↦ rw e (sym (append-nil s.got), ground arith)
    | inr e ↦ rw e (refl, refl, refl)
  ]

  writes-IsSound :
      (w : Writer) (r : Ring)
      → write_step s.writer s.ring ≡ some (w, r)
      → IsSound base (record s { writer = w; ring = r; sent = s.sent ++ published s.writer })
  writes-IsSound w r e =
      let (w', r', q, ok, g, h) = write_step-Writes s.ring k.valid s.writer k.writer_ok in
      let same : ◌≡◌ {A = Writer × Ring} (w', r') (w, r) = some_eq (sym q ∙ e) in
      subst {A = Writer × Ring}
        (λ p.
          IsSound base (record s { writer = p.0; ring = p.1; sent = s.sent ++ published s.writer }))
        same
        (record {
          valid = g.valid;
          writer_ok = ok;
          reader_ok = ReaderOk-Grew k.valid g s.reader k.reader_ok;
          wrote = h s.call s.sent k.wrote;
          obtained = Obtained-Grew k.valid g s.ask s.got s.reader k.obtained;
          account =
              sym (append_assoc base s.sent (published s.writer))
              ∙ ap (λ (x : List ℕ). x ++ published s.writer) k.account
              ∙ append_assoc s.got (contents s.ring) (published s.writer)
              ∙ ap (λ (x : List ℕ). s.got ++ x) (sym g.grown);
        })

  reads-IsSound :
      (d : Reader) (r : Ring)
      → read_step s.reader s.ring ≡ some (d, r)
      → IsSound base (record s { reader = d; ring = r; got = s.got ++ freed s.reader })
  reads-IsSound d r e =
      let (d', r', q, ok, g, h) = read_step-Reads s.ring k.valid s.reader k.reader_ok in
      let same : ◌≡◌ {A = Reader × Ring} (d', r') (d, r) = some_eq (sym q ∙ e) in
      subst {A = Reader × Ring}
        (λ p. IsSound base (record s { reader = p.0; ring = p.1; got = s.got ++ freed s.reader }))
        same
        (record {
          valid = g.valid;
          writer_ok = WriterOk-Shrank g s.writer k.writer_ok;
          reader_ok = ok;
          wrote = Wrote-Shrank g s.call s.sent s.writer k.wrote;
          obtained = h s.ask s.got k.obtained;
          account =
              k.account
              ∙ ap (λ (x : List ℕ). s.got ++ x) g.less
              ∙ sym (append_assoc s.got (freed s.reader) (contents r'));
        })

  Step-IsSound : {t : System} → Step s t → IsSound base t
  Step-IsSound (appends n bytes e h) = record {
    valid = k.valid;
    writer_ok = calls_append bytes h;
    reader_ok = k.reader_ok;
    wrote = begins bytes;
    obtained = k.obtained;
    account = k.account;
  }
  Step-IsSound (writes w r e) = writes-IsSound w r e
  Step-IsSound (retrieves before n e) = record {
    valid = k.valid;
    writer_ok = k.writer_ok;
    reader_ok = calls_retrive n;
    wrote = k.wrote;
    obtained = asks n;
    account = k.account;
  }
  Step-IsSound (reads d r e) = reads-IsSound d r e

pub Reach-IsSound : {base : List ℕ} {s t : System} → IsSound base s → Reach s t → IsSound base t
Reach-IsSound k start = k
Reach-IsSound k (next h st) = Step-IsSound (Reach-IsSound k h) st

-- Two threads that call nothing yet, on a ring.
abbrev pub quiet : Ring → System
quiet r = record {
  ring = r;
  writer = w_idle 0;
  reader = r_idle [];
  call = record { bytes = []; before = []; room = 0 };
  ask = record { want = 0; before = []; shown = 0 };
  sent = [];
  got = [];
}

pub quiet-IsSound : {r : Ring} → IsValid r → IsSound (contents r) (quiet r)
quiet-IsSound {r} v = record {
  valid = v;
  writer_ok = tt;
  reader_ok = tt;
  wrote = (refl, omega arith);
  obtained = (refl, omega arith);
  account = append-nil (contents r);
}

-- One thread calls append and another retrive, on a valid ring, their loads, copies and stores
-- interleaved in any order; each call of append begins away from the read position 0, or fits. In
-- every state that they reach the ring is valid, and what waited at first with what was published
-- is what was freed with what waits now, in order: no byte is lost, made up, repeated or moved.
pub Reach-accounts :
    {r : Ring} {t : System}
    → IsValid r
    → Reach (quiet r) t
    → IsValid t.ring × (contents r ++ t.sent ≡ t.got ++ contents t.ring)
Reach-accounts {r} {t} v h =
    let k : IsSound (contents r) t = Reach-IsSound (quiet-IsSound v) h in (k.valid, k.account)

-- On a valid ring, where each call of append begins away from the read position 0, or fits: in
-- every state that the two threads reach, what was published since the last call of append began is
-- the bytes of that call that it counts as written; once it returned k, these are its first k
-- bytes, and k is the number of its bytes or the room that it saw when it loaded m_out, whichever
-- is less. What was freed since the last call of retrive began is the bytes that it read; once it
-- returned, these are all that it gives, as many as it wanted or as it saw when it loaded m_in,
-- whichever is less.
pub Reach-returns :
    {r : Ring} {t : System}
    → IsValid r
    → Reach (quiet r) t
    → Wrote t.call t.sent t.ring t.writer × Obtained t.ask t.got t.ring t.reader
Reach-returns {r} {t} v h =
    let i : IsSound (contents r) t = Reach-IsSound (quiet-IsSound v) h in (i.wrote, i.obtained)
