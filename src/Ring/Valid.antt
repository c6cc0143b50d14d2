-- ===== src/Ring/Valid.antt =====
-- src/log/RingBuffer.cpp: the facts about positions and wrapped blocks that its proofs share.
use generic_server.Prelude.{
  ap₂, ℕ, ◌+◌, ◌-◌, ◌≤◌, ◌<◌, ◌≡◌, sym, ap, ◌∙◌, inl, inr, List, ◌++◌, length, take, drop, arith,
  length-take, length-drop, length-append, take_all, leb, Bool-cases, append_assoc,
}
use generic_server.Prelude.Memory.{slice, blit, length-blit, slice-blit, drop-blit}
use generic_server.Ring.Defs.{Ring, contents, data_size}

pub record IsValid (r : Ring) : Type 0 where
  pub backed : length r.mem ≡ r.size
  pub in_range : r.in_pos < r.size
  pub out_range : r.out_pos < r.size

pub length-contents : (r : Ring) → IsValid r → length (contents r) ≡ data_size r
length-contents r v = elim (Bool-cases (leb r.out_pos r.in_pos)) [
  | inl e ↦ rw e (
      ground (
        arith,
        v,
        length-take (r.in_pos - r.out_pos) (drop r.out_pos r.mem),
        length-drop r.out_pos r.mem,
      ))
  | inr e ↦ rw e (
      ground (
        arith,
        v,
        length-append (drop r.out_pos r.mem) (take r.in_pos r.mem),
        length-take r.in_pos r.mem,
        length-drop r.out_pos r.mem,
      ))
]

pub contents_flat :
    (r : Ring) → r.out_pos ≤ r.in_pos → contents r ≡ slice r.out_pos (r.in_pos - r.out_pos) r.mem
contents_flat r h = ground arith

pub contents_round :
    (r : Ring) → r.in_pos < r.out_pos → contents r ≡ drop r.out_pos r.mem ++ take r.in_pos r.mem
contents_round r h = ground arith

-- The call took the first `k` bytes.
pub record Appended (r : Ring) (bytes : List ℕ) (k : ℕ) (r' : Ring) : Type 0 where
  pub valid : IsValid r'
  pub gained : contents r' ≡ contents r ++ take k bytes
  pub same_size : r'.size ≡ r.size
  pub same_out : r'.out_pos ≡ r.out_pos

-- Bytes written at the write position extend what waits, if they stay short of the read position
-- or, ahead of it, inside the block.
module _ (r : Ring) (v : IsValid r) (bytes : List ℕ) (room : r.in_pos + length bytes ≤ r.size) where
  unfoldable pub written : List ℕ
  written = blit r.in_pos bytes r.mem

  fits : r.in_pos + length bytes ≤ length r.mem
  fits = omega (arith, v)

  pub length-written : length written ≡ r.size
  unfolding written
  length-written = length-blit r.in_pos bytes r.mem fits ∙ v.backed

  pub written_flat :
      (i : ℕ)
      → r.out_pos ≤ r.in_pos
      → i ≡ r.in_pos + length bytes
      → slice r.out_pos (i - r.out_pos) written ≡ contents r ++ bytes
  unfolding written
  written_flat i h e =
      slice-blit r.in_pos bytes r.mem fits r.out_pos (i - r.out_pos) h (omega arith)
      ∙ ap (λ (l : List ℕ). l ++ bytes) (sym (contents_flat r h))

  pub written_to_end :
      r.out_pos ≤ r.in_pos
      → r.in_pos + length bytes ≡ r.size
      → drop r.out_pos written ≡ contents r ++ bytes
  written_to_end h e =
      sym (
        take_all (r.size - r.out_pos) (drop r.out_pos written)
          (omega (arith, length-written, length-drop r.out_pos written)))
      ∙ written_flat r.size h (omega arith)

  pub written_gap :
      r.in_pos + length bytes < r.out_pos
      → drop r.out_pos written ++ take (r.in_pos + length bytes) written ≡ contents r ++ bytes
  unfolding written
  written_gap h =
      ap₂ (λ (l m : List ℕ). l ++ m) (drop-blit r.in_pos bytes r.mem fits r.out_pos (omega arith))
        (slice-blit r.in_pos bytes r.mem fits 0 (r.in_pos + length bytes) (omega arith)
          (omega arith))
      ∙ sym (append_assoc (drop r.out_pos r.mem) (take (r.in_pos - 0) r.mem) bytes)
      ∙ ap (λ (l : List ℕ). l ++ bytes)
          (ap (λ k. drop r.out_pos r.mem ++ take k r.mem) (omega arith)
            ∙ sym (contents_round r (omega arith)))
