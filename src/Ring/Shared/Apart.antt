-- ===== src/Ring/Shared/Apart.antt =====
-- src/log/RingBuffer.cpp: the two threads never fault and never touch the same bytes of the block.
use generic_server.Prelude.{
  ℕ, ◌+◌, ◌-◌, ◌≤◌, ◌≡◌, ◌⊎◌, some, length, arith, min, leb, if◌then◌else◌,
}
use generic_server.Ring.Defs.{Ring, contents}
use generic_server.Ring.Valid.{IsValid}
use generic_server.Ring.Shared.Defs.{
  Writer, w_idle, w_starts, w_round, w_rests, w_last, w_gap, write_step, Reader, r_idle, r_starts,
  r_flat, r_round, r_rests, r_last, read_step, System, Reach,
}
use generic_server.Ring.Shared.Moves.{IsFree, IsFull}
use generic_server.Ring.Shared.Writer.{write_step-Writes}
use generic_server.Ring.Shared.States.{WriterOk, ReaderOk}
use generic_server.Ring.Shared.Reader.{read_step-Reads}
use generic_server.Ring.Shared.Streams.{IsSound, quiet, quiet-IsSound, Reach-IsSound}

-- How many bytes the thread's next step writes from the write position on, or reads from the read
-- position on.
unfoldable pub write_len : Writer → Ring → ℕ
write_len (w_idle k) r = 0
write_len (w_starts bytes out) r =
    if leb out r.in_pos
    then min (length bytes) (r.size - r.in_pos)
    else min (length bytes) (out - r.in_pos - 1)
write_len (w_round bytes out len) r = 0
write_len (w_rests bytes out done) r = min (length bytes) (out - 1)
write_len (w_last bytes len done) r = 0
write_len (w_gap bytes len) r = 0

unfoldable pub read_len : Reader → Ring → ℕ
read_len (r_idle bytes) r = 0
read_len (r_starts n inn) r =
    if leb r.out_pos inn then min n (inn - r.out_pos) else min n (r.size - r.out_pos)
read_len (r_flat bytes len) r = 0
read_len (r_round n inn bytes len) r = 0
read_len (r_rests n inn before) r = min n inn
read_len (r_last before bytes len) r = 0

module _ (r : Ring) (v : IsValid r) where
  none-IsFree : IsFree r 0
  none-IsFree = record { in_block = omega (arith, v); in_gap = omega arith }

  none-IsFull : IsFull r 0
  none-IsFull = record { in_block = omega (arith, v); in_data = omega arith }

  write_len-IsFree : (w : Writer) → WriterOk r w → IsFree r (write_len w r)
  unfolding write_len
  write_len-IsFree (w_idle k) ok = none-IsFree
  write_len-IsFree (w_starts bytes o) ok = record {
    in_block = ground (arith, v, ok);
    in_gap = ground (arith, v, ok);
  }
  write_len-IsFree (w_round bytes o len) ok = none-IsFree
  write_len-IsFree (w_rests bytes o done) ok = record {
    in_block = omega (arith, v, ok);
    in_gap = ground (arith, v, ok);
  }
  write_len-IsFree (w_last bytes len done) ok = none-IsFree
  write_len-IsFree (w_gap bytes len) ok = none-IsFree

  read_len-IsFull : (d : Reader) → ReaderOk r d → IsFull r (read_len d r)
  unfolding read_len
  read_len-IsFull (r_idle bytes) ok = none-IsFull
  read_len-IsFull (r_starts n i) ok = record {
    in_block = ground (arith, v, ok);
    in_data = ground (arith, v, ok);
  }
  read_len-IsFull (r_flat bytes len) ok = none-IsFull
  read_len-IsFull (r_round n i bytes len) ok = none-IsFull
  read_len-IsFull (r_rests n i before) ok = record {
    in_block = omega (arith, v, ok);
    in_data = ground (arith, v, ok);
  }
  read_len-IsFull (r_last before bytes len) ok = none-IsFull

  apart :
      (m n : ℕ) → IsFree r m → IsFull r n → (r.in_pos + m ≤ r.out_pos) ⊎ (r.out_pos + n ≤ r.in_pos)
  apart m n f g = ground (arith, v, f, g)

-- On a valid ring, where each call of append begins away from the read position 0, or fits: in
-- every state that the two threads reach, the next step of each of them faults nowhere, and the
-- bytes that the writer copies next and those that the reader copies next do not overlap.
pub Reach-apart :
    {r : Ring} {t : System}
    → IsValid r
    → Reach (quiet r) t
    → ((w : Writer × Ring) × (write_step t.writer t.ring ≡ some w))
      × ((d : Reader × Ring) × (read_step t.reader t.ring ≡ some d))
      × ((t.ring.in_pos + write_len t.writer t.ring ≤ t.ring.out_pos)
          ⊎ (t.ring.out_pos + read_len t.reader t.ring ≤ t.ring.in_pos))
Reach-apart {r} {t} v h =
    let i : IsSound (contents r) t = Reach-IsSound (quiet-IsSound v) h in
    let (w, s, p, ok, g, h) = write_step-Writes t.ring i.valid t.writer i.writer_ok in
    let (d, u, q, ok', g', h') = read_step-Reads t.ring i.valid t.reader i.reader_ok in
    (
      ((w, s), p),
      ((d, u), q),
      apart t.ring i.valid (write_len t.writer t.ring) (read_len t.reader t.ring)
          (write_len-IsFree t.ring i.valid t.writer i.writer_ok)
          (read_len-IsFull t.ring i.valid t.reader i.reader_ok),
    )
