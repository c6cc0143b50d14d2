-- ===== src/Ring/Append.antt =====
-- RingBuffer::append (src/log/RingBuffer.cpp): what it accepts and where it goes wrong.
use native.Mathlib.Decide.{dec_lt}
use native.Mathlib.Nat.{mod-eq_of_lt, mod-eq-sub-mod}
use generic_server.Prelude.{
  ap₂, ℕ, ◌+◌, ◌-◌, ◌%◌, ◌≤◌, ◌<◌, ◌≡◌, refl, sym, ap, ◌∙◌, ◌⊎◌, some, List, ◌++◌, length, take,
  drop, min, arith, length-take, length-drop, append-nil, lt→ltb, append_assoc, take-append-take,
}
use generic_server.Prelude.Int.{pos, min_ℤ-pred}
use generic_server.Prelude.Memory.{blit, copy_in, copy_in-some, length-blit, slice-blit, drop-blit}
use generic_server.Ring.Defs.{Ring, contents, avail_size, append_gap, append_round, append}
use generic_server.Ring.Valid.{
  IsValid, contents_flat, contents_round, written, length-written, written_flat, written_to_end,
  written_gap,
}

pub end-mod : (a s : ℕ) → a ≡ s → 0 < s → a % s ≡ 0
end-mod a s e h = grind (arith, mod-eq-sub-mod)

pub from_start : (m s : ℕ) → m < s → (0 + m) % s ≡ m
from_start m s h = grind (arith, mod-eq_of_lt)

-- The call took the first `k` bytes, and kept the ring valid and the read position where it was.
pub record Appended (r : Ring) (bytes : List ℕ) (k : ℕ) (r' : Ring) : Type 0 where
  pub valid : IsValid r'
  pub gained : contents r' ≡ contents r ++ take k bytes
  pub same_size : r'.size ≡ r.size
  pub same_out : r'.out_pos ≡ r.out_pos

-- Bytes `take k bytes` written at the write position, which moves to `i`.
abbrev pub put : Ring → ℕ → List ℕ → ℕ → Ring
put r k bytes i = record r { mem = blit r.in_pos (take k bytes) r.mem; in_pos = i }

module _ (r : Ring) (v : IsValid r) (bytes : List ℕ) (n : ℕ) (enough : n ≤ length bytes) where
  took : (k : ℕ) → k ≤ n → length (take k bytes) ≡ k
  took k h = omega (arith, length-take k bytes)

  pub copied :
      (k : ℕ)
      → k ≤ n
      → r.in_pos + k ≤ r.size
      → copy_in r.in_pos bytes (pos k) r.mem ≡ some (blit r.in_pos (take k bytes) r.mem)
  copied k h l = copy_in-some r.in_pos bytes k r.mem (omega (arith, v)) (omega arith)

  gap_lem :
      (k : ℕ)
      → r.in_pos < r.out_pos
      → k ≡ min n (r.out_pos - r.in_pos - 1)
      → append_gap bytes n r ≡ some (k, put r k bytes (r.in_pos + k))
  unfolding append_gap
  gap_lem k h e = rw (← e, copied k (omega arith) (omega (arith, v)))

  gap_Appended :
      (k : ℕ) → k ≤ n → r.in_pos + k < r.out_pos → Appended r bytes k (put r k bytes (r.in_pos + k))
  unfolding written
  gap_Appended k h l = record {
    valid = record {
      backed = length-written r v (take k bytes) (omega (arith, took k h, v));
      in_range = omega (arith, v);
      out_range = v.out_range;
    };
    gained =
        contents_round (put r k bytes (r.in_pos + k)) l
        ∙ ap
            (λ j.
              drop r.out_pos (blit r.in_pos (take k bytes) r.mem)
              ++ take j (blit r.in_pos (take k bytes) r.mem))
            (omega (arith, took k h))
        ∙ written_gap r v (take k bytes) (omega (arith, took k h, v)) (omega (arith, took k h));
    same_size = refl;
    same_out = refl;
  }

  -- Ahead of the read position, short of the end of the block.
  flat_Appended :
      r.out_pos ≤ r.in_pos
      → r.in_pos + n < r.size
      → Appended r bytes n (put r n bytes (r.in_pos + n))
  unfolding written
  flat_Appended h l = record {
    valid = record {
      backed = length-written r v (take n bytes) (omega (arith, took n));
      in_range = l;
      out_range = v.out_range;
    };
    gained =
        contents_flat (put r n bytes (r.in_pos + n)) (omega arith)
        ∙ written_flat r v (take n bytes) (omega (arith, took n)) (r.in_pos + n) h
            (omega (arith, took n));
    same_size = refl;
    same_out = refl;
  }

  -- Up to the end of the block exactly.
  end_Appended :
      r.out_pos ≤ r.in_pos
      → 0 < r.out_pos
      → r.in_pos + n ≡ r.size
      → Appended r bytes n (put r n bytes 0)
  unfolding written
  end_Appended h p l = record {
    valid = record {
      backed = length-written r v (take n bytes) (omega (arith, took n));
      in_range = omega (arith, v);
      out_range = v.out_range;
    };
    gained =
        contents_round (put r n bytes 0) p
        ∙ append-nil (drop r.out_pos (blit r.in_pos (take n bytes) r.mem))
        ∙ written_to_end r v (take n bytes) (omega (arith, took n)) h (omega (arith, took n));
    same_size = refl;
    same_out = refl;
  }

  pub round_short :
      r.in_pos + n ≤ r.size
      → append_round bytes n r ≡ some (n, put r n bytes ((r.in_pos + n) % r.size))
  unfolding append_round
  round_short h = ground (arith, copied n, v)

  -- Past the end of the block: `left` bytes up to it, then `m` bytes at its start.
  abbrev left : ℕ
  left = r.size - r.in_pos

  abbrev wrapped : ℕ → Ring
  wrapped m = record r {
    mem = blit 0 (take m (drop left bytes)) (blit r.in_pos (take left bytes) r.mem);
    in_pos = m;
  }

  module _ (m : ℕ) (h : r.out_pos ≤ r.in_pos) (over : left < n) (few : m ≤ n - left)
      (short : m < r.out_pos) where
    took_end : length (take left bytes) ≡ left
    took_end = took left (omega arith)

    took_start : length (take m (drop left bytes)) ≡ m
    took_start = omega (arith, length-take m (drop left bytes), length-drop left bytes)

    at_end : length (blit r.in_pos (take left bytes) r.mem) ≡ r.size
    unfolding written
    at_end = length-written r v (take left bytes) (omega (arith, took_end))

    wrapped-Appended : Appended r bytes (left + m) (wrapped m)
    unfolding written
    wrapped-Appended = record {
      valid = record {
        backed = length-blit 0 _ _ (omega (arith, took_start, at_end, v)) ∙ at_end;
        in_range = omega (arith, v);
        out_range = v.out_range;
      };
      gained =
          contents_round (wrapped m) short
          ∙ ap₂ (λ (a b : List ℕ). a ++ b)
              (drop-blit 0 _ _ (omega (arith, took_start, at_end, v)) r.out_pos
                  (omega (arith, took_start))
                ∙ written_to_end r v (take left bytes) (omega (arith, took_end)) h
                    (omega (arith, took_end, v)))
              (slice-blit 0 _ _ (omega (arith, took_start, at_end, v)) 0 m (omega arith)
                (omega (arith, took_start)))
          ∙ append_assoc (contents r) (take left bytes) (take m (drop left bytes))
          ∙ ap (λ (l : List ℕ). contents r ++ l) (take-append-take left m bytes);
      same_size = refl;
      same_out = refl;
    }

    round_long :
        m ≡ min (n - left) (r.out_pos - 1) → append_round bytes n r ≡ some (left + m, wrapped m)
    unfolding append_round
    round_long e =
        rw
          (
            len_left,
            at_start,
            min_ℤ-pred (n - left) r.out_pos (omega arith),
            ← e,
            copied left (omega arith) (omega arith),
            lt→ltb 0 (n - left) (omega arith),
          )
          (rw
            (copy_in-some 0 (drop left bytes) m (blit r.in_pos (take left bytes) r.mem)
              (omega (arith, at_end)) (omega (arith, length-drop left bytes)))
            (ap (λ i. some (left + m, record (wrapped m) { in_pos = i }))
              (from_start m r.size (omega (arith, v)))))
      where
        len_left : min n (r.size - r.in_pos) ≡ left
        len_left = omega arith

        at_start : (r.in_pos + left) % r.size ≡ 0
        at_start = end-mod (r.in_pos + left) r.size (omega (arith, v)) (omega (arith, v))

-- What a call that takes all that fits yields.
abbrev pub Takes : Ring → List ℕ → ℕ → Type 0
Takes r bytes n =
    (r' : Ring) × (append bytes (pos n) r ≡ some (min n (avail_size r), r'))
    × Appended r bytes (min n (avail_size r)) r'

module _ (r : Ring) (bytes : List ℕ) (n : ℕ) where
  append-zero : n ≡ 0 → append bytes (pos n) r ≡ some (0, r)
  unfolding append
  append-zero h = ground arith

  append-gap : 0 < n → r.in_pos < r.out_pos → append bytes (pos n) r ≡ append_gap bytes n r
  unfolding append
  append-gap p h = ground arith

  pub append-round : 0 < n → r.out_pos ≤ r.in_pos → append bytes (pos n) r ≡ append_round bytes n r
  unfolding append
  append-round p h = ground arith

  takes :
      (k : ℕ) (r' : Ring)
      → k ≡ min n (avail_size r)
      → append bytes (pos n) r ≡ some (k, r')
      → Appended r bytes k r'
      → Takes r bytes n
  takes k r' e f a = rw (← e) (r', f, a)

-- A call on a valid ring takes what fits, and appends exactly those bytes in order, provided that
-- the read position is not 0 or that all the bytes fit.
pub append-Takes :
    (r : Ring) (bytes : List ℕ) (n : ℕ)
    → IsValid r
    → n ≤ length bytes
    → (0 < r.out_pos) ⊎ (n ≤ avail_size r)
    → Takes r bytes n
append-Takes r bytes n v enough ok = elim (dec_lt 0 n) [
  | no z ↦ takes r bytes n 0 r (omega arith) (append-zero r bytes n (omega arith)) (record {
    valid = v;
    gained = sym (append-nil (contents r));
    same_size = refl;
    same_out = refl;
  })
  | yes p ↦ elim (dec_lt r.in_pos r.out_pos) [
    | yes gap ↦
        let k : ℕ = min n (r.out_pos - r.in_pos - 1) in
        takes r bytes n k _ (ground arith)
          (append-gap r bytes n p gap ∙ gap_lem r v bytes n enough k gap refl)
          (gap_Appended r v bytes n enough k (omega arith) (omega arith))
    | no ahead ↦ round p (omega arith)
  ]
]
  where
    round : 0 < n → r.out_pos ≤ r.in_pos → Takes r bytes n
    round p h = elim (dec_lt (r.in_pos + n) r.size) [
      | yes f ↦
          takes r bytes n n (put r n bytes (r.in_pos + n)) (ground arith)
            (append-round r bytes n p h
              ∙ round_short r v bytes n enough (omega arith)
              ∙ ap (λ i. some (n, put r n bytes i)) (mod-eq_of_lt f))
            (flat_Appended r v bytes n enough h f)
      | no g ↦ elim (dec_lt r.size (r.in_pos + n)) [
        | no f ↦
            takes r bytes n n (put r n bytes 0) (ground arith)
              (append-round r bytes n p h
                ∙ round_short r v bytes n enough (omega arith)
                ∙ ap (λ i. some (n, put r n bytes i))
                    (end-mod (r.in_pos + n) r.size (omega arith) (omega (arith, v))))
              (end_Appended r v bytes n enough h (ground (arith, v)) (omega arith))
        | yes f ↦
            let m : ℕ = min (n - (r.size - r.in_pos)) (r.out_pos - 1) in
            let q : 0 < r.out_pos = ground (arith, v) in
            takes r bytes n (r.size - r.in_pos + m) _ (ground (arith, v))
              (append-round r bytes n p h
                ∙ round_long r v bytes n enough m h (omega arith) (omega arith) (omega arith) refl)
              (wrapped-Appended r v bytes n enough m h (omega arith) (omega arith) (omega arith))
      ]
    ]
