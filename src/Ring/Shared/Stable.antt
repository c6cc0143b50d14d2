-- ===== src/Ring/Shared/Stable.antt =====
-- src/log/RingBuffer.cpp: what one thread relies on survives the steps of the other.
use generic_server.Prelude.{ℕ, sym, ap, ap₂, ◌∙◌, inl, inr, List, take, arith, take-append_left}
use generic_server.Prelude.Memory.{slice}
use generic_server.Ring.Defs.{Ring, contents}
use generic_server.Ring.Valid.{IsValid, length-contents}
use generic_server.Ring.Shared.Defs.{
  Call, Ask, Writer, w_idle, w_starts, w_round, w_rests, w_last, w_gap, Reader, r_idle, r_starts,
  r_flat, r_round, r_rests, r_last,
}
use generic_server.Ring.Shared.Moves.{IsFree, IsFull}
use generic_server.Ring.Shared.States.{
  WriterOk, Wrote, IsSafeOut, IsLaid, Starts, Grew, ReaderOk, Obtained, IsSafeIn, IsTaken, Shrank,
}

-- What the writer relies on survives the reader's steps.
module _ {r r' : Ring} {gone : List ℕ} (s : Shrank r r' gone) where
  safe_out : (o : ℕ) → IsSafeOut r o → IsSafeOut r' o
  safe_out o (a, b) = (omega (arith, a, s.same_size), ground (arith, b, s))

  still-IsFree : (len : ℕ) → IsFree r len → IsFree r' len
  still-IsFree len f = record {
    in_block = omega (arith, f, s.same_in, s.same_size);
    in_gap = omega (arith, f, s.more);
  }

  still-IsLaid : (bytes : List ℕ) (len : ℕ) → IsLaid r bytes len → IsLaid r' bytes len
  still-IsLaid bytes len (f, e) =
      (still-IsFree len f, ap₂ (λ (i : ℕ) (m : List ℕ). slice i len m) s.same_in s.same_mem ∙ e)

  still-Starts : (bytes : List ℕ) (o : ℕ) → Starts r bytes o → Starts r' bytes o
  still-Starts bytes o (a, inl p) = (safe_out o a, inl p)
  still-Starts bytes o (a, inr h) = (safe_out o a, inr (ground (arith, h, s.same_in, s.same_size)))

  pub WriterOk-Shrank : (w : Writer) → WriterOk r w → WriterOk r' w
  WriterOk-Shrank (w_idle k) ok = tt
  WriterOk-Shrank (w_starts bytes o) ok = still-Starts bytes o ok
  WriterOk-Shrank (w_round bytes o len) (a, b, c, d) = (
    still-Starts bytes o a,
    omega (arith, b, s.same_in),
    omega (arith, c, s.same_in, s.same_size),
    still-IsLaid bytes len d,
  )
  WriterOk-Shrank (w_rests bytes o done) (a, b, c) = (safe_out o a, b, omega (arith, c, s.same_in))
  WriterOk-Shrank (w_last bytes len done) ok = still-IsLaid bytes len ok
  WriterOk-Shrank (w_gap bytes len) (a, b) =
      (still-IsLaid bytes len a, omega (arith, b, s.same_in, s.same_size))

  pub Wrote-Shrank : (c : Call) (sent : List ℕ) (w : Writer) → Wrote c sent r w → Wrote c sent r' w
  Wrote-Shrank c sent (w_idle k) h = h
  Wrote-Shrank c sent (w_starts bytes o) (a, b, d) =
      (a, b, ground (arith, d, s.same_in, s.same_size))
  Wrote-Shrank c sent (w_round bytes o len) (a, b, d) =
      (a, b, ground (arith, d, s.same_in, s.same_size))
  Wrote-Shrank c sent (w_rests bytes o done) h = h
  Wrote-Shrank c sent (w_last bytes len done) h = h
  Wrote-Shrank c sent (w_gap bytes len) h = h

-- What the reader relies on survives the writer's steps.
module _ {r r' : Ring} {new : List ℕ} (v : IsValid r) (g : Grew r r' new) where
  safe_in : (i : ℕ) → IsSafeIn r i → IsSafeIn r' i
  safe_in i (a, b) =
      (omega (arith, a, g.same_size), ground (arith, b, g.more, g.same_out, g.same_size))

  still-IsFull : (len : ℕ) → IsFull r len → IsFull r' len
  still-IsFull len f = record {
    in_block = omega (arith, f, g.same_out, g.same_size);
    in_data = omega (arith, f, g.more);
  }

  still_taken : (bytes : List ℕ) (len : ℕ) → IsTaken r bytes len → IsTaken r' bytes len
  still_taken bytes len (f, e) = (
    still-IsFull len f,
    e
        ∙ sym (take-append_left len (contents r) new (omega (arith, f, length-contents r v)))
        ∙ ap (take len) (sym g.grown),
  )

  pub ReaderOk-Grew : (d : Reader) → ReaderOk r d → ReaderOk r' d
  ReaderOk-Grew (r_idle bytes) ok = tt
  ReaderOk-Grew (r_starts n i) ok = safe_in i ok
  ReaderOk-Grew (r_flat bytes len) (a, b) =
      (still_taken bytes len a, omega (arith, b, g.same_out, g.same_size))
  ReaderOk-Grew (r_round n i bytes len) (a, b, c, d) = (
    safe_in i a,
    omega (arith, b, g.same_out),
    omega (arith, c, g.same_out, g.same_size),
    still_taken bytes len d,
  )
  ReaderOk-Grew (r_rests n i before) (a, b) = (safe_in i a, omega (arith, b, g.same_out))
  ReaderOk-Grew (r_last before bytes len) ok = still_taken bytes len ok

  pub Obtained-Grew :
      (a : Ask) (got : List ℕ) (d : Reader) → Obtained a got r d → Obtained a got r' d
  Obtained-Grew a got (r_idle bytes) h = h
  Obtained-Grew a got (r_starts n i) (b, c, d) = (b, c, ground (arith, d, g.same_out, g.same_size))
  Obtained-Grew a got (r_flat bytes len) h = h
  Obtained-Grew a got (r_round n i bytes len) (b, c, d) =
      (b, c, ground (arith, d, g.same_out, g.same_size))
  Obtained-Grew a got (r_rests n i part) h = h
  Obtained-Grew a got (r_last part bytes len) h = h
