-- ===== src/Prelude/Memory.antt =====
-- Blocks of bytes, and `memcpy` into and out of them. An access outside the block is a fault.
use Prim.Native.Nat.{ℕ, ◌+◌, ◌-◌, ◌≤◌, min}
use mathlib.Core.Path.{◌≡◌, ap, sym, ◌∙◌}
use mathlib.Core.Bool.{◌&&◌}
use mathlib.Core.Option.{Option, none, some}
use mathlib.Core.List.{List, ◌++◌}
use native.Mathlib.Decide.{dec_le}
use native.Mathlib.Omega.{arith}
use generic_server.Prelude.Tests.{leb, if◌then◌else◌}
use generic_server.Prelude.Int.{ℤ, pos, negsuc}
use generic_server.Prelude.Lists.{
  length, take, drop, length-append, length-take, length-drop, take_all, take-append_left,
  take-append_right, drop-append_left, drop-append_right, take-append-drop, drop_all, drop-drop,
  drop-take, take-take,
}

-- `n` bytes from offset `i`.
abbrev pub slice : ℕ → ℕ → List ℕ → List ℕ
slice i n mem = take n (drop i mem)

-- The block with `bytes` written from offset `i` on.
unfoldable pub blit : ℕ → List ℕ → List ℕ → List ℕ
blit i bytes mem = take i mem ++ (bytes ++ drop (i + length bytes) mem)

-- `memcpy(mem + i, src, n)`: a negative `n` becomes a `size_t` past any block.
unfoldable pub copy_in : ℕ → List ℕ → ℤ → List ℕ → Option (List ℕ)
unfolding blit
copy_in i src (pos n) mem =
    if leb (i + n) (length mem) && leb n (length src) then some (blit i (take n src) mem) else none
copy_in i src (negsuc n) mem = none

-- `memcpy(dst, mem + i, n)`: the bytes that reach `dst`.
unfoldable pub copy_out : ℕ → ℤ → List ℕ → Option (List ℕ)
copy_out i (pos n) mem = if leb (i + n) (length mem) then some (slice i n mem) else none
copy_out i (negsuc n) mem = none

pub copy_in-some :
    (i : ℕ) (src : List ℕ) (n : ℕ) (mem : List ℕ)
    → i + n ≤ length mem
    → n ≤ length src
    → copy_in i src (pos n) mem ≡ some (blit i (take n src) mem)
unfolding copy_in
copy_in-some i src n mem h k = ground arith

pub copy_out-some :
    (i n : ℕ) (mem : List ℕ) → i + n ≤ length mem → copy_out i (pos n) mem ≡ some (slice i n mem)
unfolding copy_out
copy_out-some i n mem h = ground arith

module _ (i : ℕ) (bytes mem : List ℕ) (fits : i + length bytes ≤ length mem) where
  pub length-blit : length (blit i bytes mem) ≡ length mem
  unfolding blit
  length-blit = omega (
    arith,
    length-append (take i mem) (bytes ++ drop (i + length bytes) mem),
    length-append bytes (drop (i + length bytes) mem),
    length-take i mem,
    length-drop (i + length bytes) mem,
  )

  below : length (take i mem) ≡ i
  below = omega (arith, length-take i mem)

  -- What lies below the written range stays.
  pub take-blit : (j : ℕ) → j ≤ i → take j (blit i bytes mem) ≡ take j mem
  unfolding blit
  take-blit j h = take-append_left j (take i mem) _ (omega (arith, below)) ∙ take-take j i mem h

  -- From a point below it up to its end: the old bytes, then the written ones.
  pub slice-blit :
      (o n : ℕ)
      → o ≤ i
      → o + n ≡ i + length bytes
      → slice o n (blit i bytes mem) ≡ slice o (i - o) mem ++ bytes
  unfolding blit
  slice-blit o n h e =
      rw
        (
          drop-append_left o (take i mem) (bytes ++ drop (i + length bytes) mem)
              (omega (arith, below)),
          drop-take i o mem,
          take-append_right n (take (i - o) (drop o mem)) (bytes ++ drop (i + length bytes) mem)
              (omega (arith, old)),
        )
        (ap (◌++◌ (take (i - o) (drop o mem)))
          (take-append_left _ bytes _ (omega (arith, old)) ∙ take_all _ bytes (omega (arith, old))))
    where
      old : length (take (i - o) (drop o mem)) ≡ i - o
      old = omega (arith, length-take (i - o) (drop o mem), length-drop o mem)

  -- What lies above it stays.
  pub drop-blit : (j : ℕ) → i + length bytes ≤ j → drop j (blit i bytes mem) ≡ drop j mem
  unfolding blit
  drop-blit j h =
      drop-append_right j (take i mem) _ (omega (arith, below))
      ∙ drop-append_right (j - length (take i mem)) bytes _ (omega (arith, below))
      ∙ drop-drop (j - length (take i mem) - length bytes) (i + length bytes) mem
      ∙ ap (λ k. drop k mem) (omega (arith, below))

  -- A slice that was written, and slices above and below.
  pub slice-blit_same : (n : ℕ) → n ≡ length bytes → slice i n (blit i bytes mem) ≡ bytes
  slice-blit_same n e =
      slice-blit i n (omega arith) (omega arith)
      ∙ ap (λ k. slice i k mem ++ bytes) {y = 0} (omega arith)

  pub slice-blit_above :
      (j n : ℕ) → i + length bytes ≤ j → slice j n (blit i bytes mem) ≡ slice j n mem
  slice-blit_above j n h = ap (take n) (drop-blit j h)

  pub slice-blit_below : (j n : ℕ) → j + n ≤ i → slice j n (blit i bytes mem) ≡ slice j n mem
  slice-blit_below j n h =
      cut (blit i bytes mem) ∙ ap (drop j) (take-blit (j + n) h) ∙ sym (cut mem)
    where
      cut : (m : List ℕ) → slice j n m ≡ drop j (take (j + n) m)
      cut m =
          ap (λ k. take k (drop j m)) {y = j + n - j} (omega arith) ∙ sym (drop-take (j + n) j m)

pub take-append-slice :
    (i n d : ℕ) (mem : List ℕ) → take n (slice i d mem) ++ slice (i + n) (d - n) mem ≡ slice i d mem
take-append-slice i n d mem =
    ap (◌++◌ (take n (slice i d mem)))
      (sym (drop-take d n (drop i mem) ∙ ap (take (d - n)) (drop-drop n i mem)))
    ∙ take-append-drop n (slice i d mem)

pub take-slice : (n i d : ℕ) (mem : List ℕ) → take n (slice i d mem) ≡ slice i (min n d) mem
take-slice n i d mem = elim (dec_le n d) [
  | yes h ↦
      take-take n d (drop i mem) h ∙ ap (λ k. slice i k mem) {x = n} {y = min n d} (omega arith)
  | no h ↦
      take_all n (slice i d mem) (omega (arith, length-take d (drop i mem)))
      ∙ ap (λ k. slice i k mem) {x = d} {y = min n d} (omega arith)
]

pub drop-slice :
    (n i d : ℕ) (mem : List ℕ) → drop n (slice i d mem) ≡ slice (i + min n d) (d - min n d) mem
drop-slice n i d mem = elim (dec_le n d) [
  | yes h ↦
      drop-take d n (drop i mem)
      ∙ ap (take (d - n)) (drop-drop n i mem)
      ∙ ap (λ k. slice (i + k) (d - k) mem) {x = n} {y = min n d} (omega arith)
  | no h ↦
      drop_all n (slice i d mem) (omega (arith, length-take d (drop i mem)))
      ∙ ap (λ k. take k (drop (i + min n d) mem)) {x = 0} {y = d - min n d} (omega arith)
]
