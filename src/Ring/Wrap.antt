-- ===== src/Ring/Wrap.antt =====
-- RingBuffer::append (src/log/RingBuffer.cpp) while the read position is 0: the test `m_in >= out`
-- lets the write position come round to it.
use generic_server.Prelude.{
  ℕ, ◌+◌, ◌-◌, ◌≤◌, ◌<◌, ◌≡◌, ◌∙◌, ap, min, some, none, List, [], length, arith, lt→ltb,
}
use generic_server.Prelude.Int.{pos, min_ℤ-neg}
use generic_server.Prelude.Memory.{slice, copy_in}
use generic_server.Ring.Defs.{Ring, contents, append, append_round}
use generic_server.Ring.Valid.{IsValid, contents_flat}
use generic_server.Ring.Append.{put, append-round, round_short, end-mod, copied}

-- The call reports every byte as written, and nothing waits after it.
abbrev pub Dropped : Ring → List ℕ → Type 0
Dropped r bytes =
    (r' : Ring) × (append bytes (pos (length bytes)) r ≡ some (length bytes, r'))
    × (contents r' ≡ [])

-- A call that fills the block to its end reports all its bytes as written, and empties the ring:
-- the bytes that waited are lost with the new ones.
pub append_loses_all :
    (r : Ring) (bytes : List ℕ)
    → IsValid r
    → r.out_pos ≡ 0
    → length bytes ≡ r.size - r.in_pos
    → Dropped r bytes
append_loses_all r bytes v z e =
    let n : ℕ = length bytes in
    (
      put r n bytes 0,
      append-round r bytes n (omega arith) (omega arith)
          ∙ round_short r v bytes n (omega arith) (omega arith)
          ∙ ap (λ i. some (n, put r n bytes i))
              (end-mod (r.in_pos + n) r.size (omega arith) (omega arith)),
      contents_flat (put r n bytes 0) (omega arith)
          ∙ ap (λ k. slice r.out_pos k (put r n bytes 0).mem) {y = 0} (omega arith),
    )

-- A longer call makes `out - 1` the length of its second `memcpy`: it faults.
append_faults :
    (r : Ring) (bytes : List ℕ) (n : ℕ)
    → IsValid r
    → r.out_pos ≡ 0
    → r.size - r.in_pos < n
    → n ≤ length bytes
    → append bytes (pos n) r ≡ none
unfolding append_round copy_in
append_faults r bytes n v z over enough =
    append-round r bytes n (omega arith) (omega arith) ∙ round_fails
  where
    len_left : min n (r.size - r.in_pos) ≡ r.size - r.in_pos
    len_left = omega arith

    round_fails : append_round bytes n r ≡ none
    round_fails = rw (
      len_left,
      z,
      min_ℤ-neg (n - (r.size - r.in_pos)),
      copied r v bytes n enough (r.size - r.in_pos) (omega arith) (omega (arith, v)),
      lt→ltb 0 (n - (r.size - r.in_pos)) (omega arith),
    )
