-- ===== src/Ring/Retrive.antt =====
-- RingBuffer::retrive (src/log/RingBuffer.cpp): it hands out the oldest bytes.
use native.Mathlib.Nat.{mod-eq_of_lt}
use native.Mathlib.Decide.{dec_lt}
use generic_server.Prelude.{
  ap₂, ℕ, ◌+◌, ◌-◌, ◌%◌, ◌≤◌, ◌<◌, ◌≡◌, refl, sym, ap, ◌∙◌, some, List, [], ◌++◌, length, take,
  drop, min, arith, length-drop, take_all, drop-drop, take-append_left, take-append_right,
  drop-append_left, drop-append_right, false, ltb, lt→ltb, append-nil,
}
use generic_server.Prelude.Int.{pos}
use generic_server.Prelude.Memory.{slice, copy_out-some, take-slice, drop-slice}
use generic_server.Ring.Defs.{Ring, contents, retrive, retrive_flat, retrive_round}
use generic_server.Ring.Valid.{IsValid, contents_flat, contents_round}
use generic_server.Ring.Append.{end-mod, from_start}

-- The oldest `n` bytes, or all of them, are taken and the others stay.
abbrev pub Gives : Ring → ℕ → Type 0
Gives r n =
    (r' : Ring) × (retrive (pos n) r ≡ some (take n (contents r), r'))
    × IsValid r'
    × (contents r' ≡ drop n (contents r))
    × (r'.in_pos ≡ r.in_pos)
    × (r'.size ≡ r.size)

module _ (r : Ring) (n : ℕ) where
  retrive-zero : n ≡ 0 → retrive (pos n) r ≡ some ([], r)
  unfolding retrive
  retrive-zero h = ground arith

  retrive-flat : 0 < n → r.out_pos ≤ r.in_pos → retrive (pos n) r ≡ retrive_flat n r
  unfolding retrive
  retrive-flat p h = ground arith

  retrive-round : 0 < n → r.in_pos < r.out_pos → retrive (pos n) r ≡ retrive_round n r
  unfolding retrive
  retrive-round p h = ground arith

abbrev skip : Ring → ℕ → Ring
skip r o = record r { out_pos = o }

module _ (r : Ring) (v : IsValid r) (n : ℕ) where
  -- The write position is ahead: `d` bytes wait between the two.
  flat_Gives : (d : ℕ) → d ≡ r.in_pos - r.out_pos → 0 < n → r.out_pos ≤ r.in_pos → Gives r n
  unfolding retrive_flat
  flat_Gives d e p h = (
    skip r (r.out_pos + min n d),
    retrive-flat r n p h
        ∙ code
        ∙ ap (λ (l : List ℕ). some (l, skip r (r.out_pos + min n d))) (sym taken),
    record { backed = v.backed; in_range = v.in_range; out_range = omega (arith, v) },
    contents_flat (skip r (r.out_pos + min n d)) (omega arith)
        ∙ ap (λ k. slice (r.out_pos + min n d) k r.mem) (omega arith)
        ∙ sym (ap (drop n) waiting ∙ drop-slice n r.out_pos d r.mem),
    refl,
    refl,
  )
    where
      waiting : contents r ≡ slice r.out_pos d r.mem
      waiting = rw e (contents_flat r h)

      taken : take n (contents r) ≡ slice r.out_pos (min n d) r.mem
      taken = ap (take n) waiting ∙ take-slice n r.out_pos d r.mem

      code : retrive_flat n r ≡ some (slice r.out_pos (min n d) r.mem, skip r (r.out_pos + min n d))
      code = rw (← e, copy_out-some r.out_pos (min n d) r.mem (omega (arith, v)))

  above : length (drop r.out_pos r.mem) ≡ r.size - r.out_pos
  above = omega (arith, length-drop r.out_pos r.mem, v)

  -- The write position came round, and the call stops before the end of the block.
  short_Gives : 0 < n → r.in_pos < r.out_pos → r.out_pos + n < r.size → Gives r n
  unfolding retrive_round
  short_Gives p h l = (
    skip r (r.out_pos + n),
    retrive-round r n p h
        ∙ rw (len_n, no_more, copy_out-some r.out_pos n r.mem (omega (arith, v)), mod-eq_of_lt l)
            (ap (λ (b : List ℕ). some (b, skip r (r.out_pos + n)))
              (sym (
                rw (contents_round r h)
                  (take-append_left n (drop r.out_pos r.mem) _ (omega (arith, above)))))),
    record { backed = v.backed; in_range = v.in_range; out_range = l },
    contents_round (skip r (r.out_pos + n)) (omega arith)
        ∙ sym (
            rw (contents_round r h) (
              drop-append_left n (drop r.out_pos r.mem) _ (omega (arith, above))
              ∙ ap (λ (b : List ℕ). b ++ take r.in_pos r.mem) (drop-drop n r.out_pos r.mem))),
    refl,
    refl,
  )
    where
      len_n : min n (r.size - r.out_pos) ≡ n
      len_n = omega (arith, v)

      no_more : ltb 0 (n - n) ≡ false
      no_more = ground arith

  -- It goes up to the end of the block or past it: `j` bytes from its start.
  long_Gives :
      (j : ℕ)
      → j ≡ min (n - (r.size - r.out_pos)) r.in_pos
      → 0 < n
      → r.in_pos < r.out_pos
      → r.size ≤ r.out_pos + n
      → Gives r n
  unfolding retrive_round
  long_Gives j e p h l = (
    skip r j,
    retrive-round r n p h ∙ code ∙ ap (λ (b : List ℕ). some (b, skip r j)) (sym taken),
    record { backed = v.backed; in_range = v.in_range; out_range = omega (arith, v) },
    contents_flat (skip r j) (omega arith)
        ∙ sym (
            rw (contents_round r h) (
              drop-append_right n (drop r.out_pos r.mem) (take r.in_pos r.mem)
                (omega (arith, above))
              ∙ drop-slice (n - length (drop r.out_pos r.mem)) 0 r.in_pos r.mem
              ∙ ap₂ (λ a b. slice a b r.mem) (omega (arith, above)) (omega (arith, above)))),
    refl,
    refl,
  )
    where
      len_left : min n (r.size - r.out_pos) ≡ r.size - r.out_pos
      len_left = omega (arith, v)

      left : ℕ
      left = r.size - r.out_pos

      end_part : slice r.out_pos (r.size - r.out_pos) r.mem ≡ drop r.out_pos r.mem
      end_part = take_all (r.size - r.out_pos) (drop r.out_pos r.mem) (omega (arith, above))

      taken : take n (contents r) ≡ drop r.out_pos r.mem ++ slice 0 j r.mem
      taken =
          ap (take n) (contents_round r h)
          ∙ take-append_right n (drop r.out_pos r.mem) (take r.in_pos r.mem) (omega (arith, above))
          ∙ ap (◌++◌ (drop r.out_pos r.mem)) (
              take-slice (n - length (drop r.out_pos r.mem)) 0 r.in_pos r.mem
              ∙ ap (λ k. slice 0 k r.mem) (omega (arith, above)))

      at_start : (r.out_pos + (r.size - r.out_pos)) % r.size ≡ 0
      at_start =
          end-mod (r.out_pos + (r.size - r.out_pos)) r.size (omega (arith, v)) (omega (arith, v))

      no_more : n ≤ r.size - r.out_pos → ltb 0 (n - (r.size - r.out_pos)) ≡ false
      no_more f = ground arith

      none_left : n ≤ r.size - r.out_pos → j ≡ 0
      none_left f = omega arith

      code : retrive_round n r ≡ some (drop r.out_pos r.mem ++ slice 0 j r.mem, skip r j)
      code =
          rw
            (
              len_left,
              at_start,
              ← e,
              copy_out-some r.out_pos (r.size - r.out_pos) r.mem (omega (arith, v)),
              end_part,
            )
            (elim (dec_lt (r.size - r.out_pos) n) [
              | yes more ↦ rw (
                lt→ltb 0 (n - (r.size - r.out_pos)) (omega arith),
                copy_out-some 0 j r.mem (omega (arith, v)),
                from_start j r.size (omega (arith, v)),
              )
              | no just ↦
                  rw (no_more (omega arith), none_left (omega arith))
                    (ap (λ (b : List ℕ). some (b, skip r 0))
                      (sym (append-nil (drop r.out_pos r.mem))))
            ])

-- RingBuffer::retrive on a valid ring never faults: it returns the oldest bytes that wait, as many
-- as it is asked for or all of them, keeps the others in order, and leaves the write position and
-- the size.
pub retrive-Gives : (r : Ring) (n : ℕ) → IsValid r → Gives r n
retrive-Gives r n v = elim (dec_lt 0 n) [
  | no z ↦ zero_Gives (omega arith)
  | yes p ↦ elim (dec_lt r.in_pos r.out_pos) [
    | no ahead ↦ flat_Gives r v n (r.in_pos - r.out_pos) refl p (omega arith)
    | yes h ↦ elim (dec_lt (r.out_pos + n) r.size) [
      | yes l ↦ short_Gives r v n p h l
      | no l ↦ long_Gives r v n (min (n - (r.size - r.out_pos)) r.in_pos) refl p h (omega arith)
    ]
  ]
]
  where
    zero_Gives : n ≡ 0 → Gives r n
    zero_Gives e = (
      r,
      retrive-zero r n e ∙ ap (λ k. some (take k (contents r), r)) {x = 0} {y = n} (sym e),
      v,
      ap (λ k. drop k (contents r)) {x = 0} {y = n} (sym e),
      refl,
      refl,
    )
