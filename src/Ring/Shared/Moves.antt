-- ===== src/Ring/Shared/Moves.antt =====
-- src/log/RingBuffer.cpp: what one memcpy or one store of a position does to the bytes that wait.
use native.Mathlib.Nat.{mod-eq_of_lt}
use native.Mathlib.Decide.{dec_lt, dec_le}
use generic_server.Prelude.{
  ℕ, ◌+◌, ◌-◌, ◌%◌, ◌≤◌, ◌<◌, ◌≡◌, refl, sym, ap, ap₂, ◌∙◌, List, ◌++◌, length, take, drop, arith,
  take_all, take-take, take-append-take, take-append_left, drop-append_left, drop-append_right,
  drop-drop, drop-take, length-drop, append_assoc, append-nil,
}
use generic_server.Prelude.Memory.{
  slice, blit, length-blit, slice-blit_same, slice-blit_below, take-blit, drop-blit,
}
use generic_server.Ring.Defs.{Ring, contents, avail_size, data_size}
use generic_server.Ring.Valid.{IsValid, contents_flat, contents_round}
use generic_server.Ring.Append.{end-mod}

abbrev pub with_mem : Ring → List ℕ → Ring
with_mem r mem = record r { mem = mem }

abbrev pub with_in : Ring → ℕ → Ring
with_in r i = record r { in_pos = i }

abbrev pub with_out : Ring → ℕ → Ring
with_out r o = record r { out_pos = o }

-- Two slices in a row.
slice-slice :
    (o m n : ℕ) (mem : List ℕ) → slice o m mem ++ slice (o + m) n mem ≡ slice o (m + n) mem
slice-slice o m n mem =
    ap (λ (l : List ℕ). take m (drop o mem) ++ take n l) (sym (drop-drop m o mem))
    ∙ take-append-take m n (drop o mem)

-- Free space behind the write position, up to the end of the block; bytes that wait behind the read
-- position, up to the end of the block.
pub record IsFree (r : Ring) (len : ℕ) : Type 0 where
  pub in_block : r.in_pos + len ≤ r.size
  pub in_gap : len ≤ avail_size r

pub record IsFull (r : Ring) (len : ℕ) : Type 0 where
  pub in_block : r.out_pos + len ≤ r.size
  pub in_data : len ≤ data_size r

module _ (r : Ring) (v : IsValid r) where
  -- A memcpy into free space changes nothing that waits.
  pub record Copied (c : List ℕ) : Type 0 where
    pub valid : IsValid (with_mem r (blit r.in_pos c r.mem))
    pub kept : contents (with_mem r (blit r.in_pos c r.mem)) ≡ contents r
    pub there : slice r.in_pos (length c) (blit r.in_pos c r.mem) ≡ c

  pub copy-Copied : (c : List ℕ) → IsFree r (length c) → Copied c
  copy-Copied c f =
      let h : r.in_pos + length c ≤ length r.mem = omega (arith, v, f) in
      let s : Ring = with_mem r (blit r.in_pos c r.mem) in
      record {
        valid = record {
          backed = length-blit r.in_pos c r.mem h ∙ v.backed;
          in_range = v.in_range;
          out_range = v.out_range;
        };
        kept = elim (dec_le r.out_pos r.in_pos) [
          | yes l ↦
              contents_flat s l
              ∙ slice-blit_below r.in_pos c r.mem h r.out_pos (r.in_pos - r.out_pos) (omega arith)
              ∙ sym (contents_flat r l)
          | no l ↦
              contents_round s (omega arith)
              ∙ ap₂ (λ (x y : List ℕ). x ++ y)
                  (drop-blit r.in_pos c r.mem h r.out_pos (ground (arith, f)))
                  (take-blit r.in_pos c r.mem h r.in_pos (omega arith))
              ∙ sym (contents_round r (omega arith))
        ];
        there = slice-blit_same r.in_pos c r.mem h (length c) refl;
      }

  -- The store of the write position publishes what was copied.
  abbrev pub moved_in : ℕ → Ring
  moved_in len = with_in r ((r.in_pos + len) % r.size)

  pub record Published (len : ℕ) : Type 0 where
    pub valid : IsValid (moved_in len)
    pub grown : contents (moved_in len) ≡ contents r ++ slice r.in_pos len r.mem

  -- Ahead of the read position the bytes go on in the block.
  flat_grown :
      (len : ℕ)
      → r.out_pos ≤ r.in_pos
      → slice r.out_pos (r.in_pos + len - r.out_pos) r.mem ≡ contents r ++ slice r.in_pos len r.mem
  flat_grown len l =
      ap (λ k. slice r.out_pos k r.mem) {y = r.in_pos - r.out_pos + len} (omega arith)
      ∙ sym (slice-slice r.out_pos (r.in_pos - r.out_pos) len r.mem)
      ∙ ap₂ (λ (x y : List ℕ). x ++ y) (sym (contents_flat r l))
          (ap (λ p. slice p len r.mem) {y = r.in_pos} (omega arith))

  short_grown :
      (len : ℕ)
      → IsFree r len
      → r.in_pos + len < r.size
      → contents (with_in r (r.in_pos + len)) ≡ contents r ++ slice r.in_pos len r.mem
  short_grown len f h = elim (dec_le r.out_pos r.in_pos) [
    | yes l ↦ contents_flat (with_in r (r.in_pos + len)) (omega arith) ∙ flat_grown len l
    | no l ↦
        contents_round (with_in r (r.in_pos + len)) (ground (arith, f))
        ∙ ap (λ (x : List ℕ). drop r.out_pos r.mem ++ x) (sym (take-append-take r.in_pos len r.mem))
        ∙ sym (append_assoc (drop r.out_pos r.mem) (take r.in_pos r.mem) (slice r.in_pos len r.mem))
        ∙ ap (λ (x : List ℕ). x ++ slice r.in_pos len r.mem) (sym (contents_round r (omega arith)))
  ]

  wrapped_grown :
      (len : ℕ)
      → IsFree r len
      → r.in_pos + len ≡ r.size
      → contents (with_in r 0) ≡ contents r ++ slice r.in_pos len r.mem
  wrapped_grown len f h =
      let l : r.out_pos ≤ r.in_pos = ground (arith, f, v) in
      contents_round (with_in r 0) (ground (arith, f, v))
      ∙ append-nil (drop r.out_pos r.mem)
      ∙ sym (
          take_all (r.in_pos + len - r.out_pos) (drop r.out_pos r.mem)
            (omega (arith, length-drop r.out_pos r.mem, v)))
      ∙ flat_grown len l

  pub store-Published : (len : ℕ) → IsFree r len → Published len
  store-Published len f = elim (dec_lt (r.in_pos + len) r.size) [
    | yes l ↦
        let e : (r.in_pos + len) % r.size ≡ r.in_pos + len = mod-eq_of_lt l in
        record {
          valid = rw e (record { backed = v.backed; in_range = l; out_range = v.out_range });
          grown = rw e (short_grown len f l);
        }
    | no l ↦
        let e : (r.in_pos + len) % r.size ≡ 0 =
          end-mod (r.in_pos + len) r.size (omega (arith, f)) (omega (arith, v)) in
        record {
          valid =
              rw e (record {
                backed = v.backed;
                in_range = omega (arith, v);
                out_range = v.out_range;
              });
          grown = rw e (wrapped_grown len f (omega (arith, f)));
        }
  ]

  -- A memcpy of bytes that wait gives the first of them.
  pub take_waiting : (len : ℕ) → IsFull r len → slice r.out_pos len r.mem ≡ take len (contents r)
  take_waiting len f = elim (dec_le r.out_pos r.in_pos) [
    | yes l ↦
        sym (take-take len (r.in_pos - r.out_pos) (drop r.out_pos r.mem) (ground (arith, f)))
        ∙ ap (take len) (sym (contents_flat r l))
    | no l ↦
        sym (
          take-append_left len (drop r.out_pos r.mem) (take r.in_pos r.mem)
            (omega (arith, length-drop r.out_pos r.mem, v, f)))
        ∙ ap (take len) (sym (contents_round r (omega arith)))
  ]

  -- The store of the read position frees what was read.
  abbrev pub moved_out : ℕ → Ring
  moved_out len = with_out r ((r.out_pos + len) % r.size)

  pub record Freed (len : ℕ) : Type 0 where
    pub valid : IsValid (moved_out len)
    pub less : contents (moved_out len) ≡ drop len (contents r)

  short_less :
      (len : ℕ)
      → IsFull r len
      → r.out_pos + len < r.size
      → contents (with_out r (r.out_pos + len)) ≡ drop len (contents r)
  short_less len f h = elim (dec_le r.out_pos r.in_pos) [
    | yes l ↦
        contents_flat (with_out r (r.out_pos + len)) (ground (arith, f))
        ∙ ap (λ k. slice (r.out_pos + len) k r.mem) {y = r.in_pos - r.out_pos - len} (omega arith)
        ∙ ap (take (r.in_pos - r.out_pos - len)) (sym (drop-drop len r.out_pos r.mem))
        ∙ sym (drop-take (r.in_pos - r.out_pos) len (drop r.out_pos r.mem))
        ∙ ap (drop len) (sym (contents_flat r l))
    | no l ↦
        contents_round (with_out r (r.out_pos + len)) (omega arith)
        ∙ ap (λ (x : List ℕ). x ++ take r.in_pos r.mem) (sym (drop-drop len r.out_pos r.mem))
        ∙ sym (
            drop-append_left len (drop r.out_pos r.mem) (take r.in_pos r.mem)
              (omega (arith, length-drop r.out_pos r.mem, v, f)))
        ∙ ap (drop len) (sym (contents_round r (omega arith)))
  ]

  wrapped_less :
      (len : ℕ)
      → IsFull r len
      → r.out_pos + len ≡ r.size
      → contents (with_out r 0) ≡ drop len (contents r)
  wrapped_less len f h =
      let l : r.in_pos < r.out_pos = ground (arith, f, v) in
      let d : length (drop r.out_pos r.mem) ≡ len = omega (arith, length-drop r.out_pos r.mem, v) in
      contents_flat (with_out r 0) (omega arith)
      ∙ ap (λ k. take k r.mem) {x = r.in_pos - 0} {y = r.in_pos} (omega arith)
      ∙ ap (λ k. drop k (take r.in_pos r.mem)) {x = 0} {y = len - length (drop r.out_pos r.mem)}
          (omega (arith, d))
      ∙ sym (drop-append_right len (drop r.out_pos r.mem) (take r.in_pos r.mem) (omega (arith, d)))
      ∙ ap (drop len) (sym (contents_round r l))

  pub store-Freed : (len : ℕ) → IsFull r len → Freed len
  store-Freed len f = elim (dec_lt (r.out_pos + len) r.size) [
    | yes l ↦
        let e : (r.out_pos + len) % r.size ≡ r.out_pos + len = mod-eq_of_lt l in
        record {
          valid = rw e (record { backed = v.backed; in_range = v.in_range; out_range = l });
          less = rw e (short_less len f l);
        }
    | no l ↦
        let e : (r.out_pos + len) % r.size ≡ 0 =
          end-mod (r.out_pos + len) r.size (omega (arith, f)) (omega (arith, v)) in
        record {
          valid =
              rw e
                (record { backed = v.backed; in_range = v.in_range; out_range = omega (arith, v) });
          less = rw e (wrapped_less len f (omega (arith, f)));
        }
  ]
