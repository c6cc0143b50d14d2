-- ===== src/Buffer/Valid.antt =====
-- src/Buffer.cpp: every operation keeps the pointers in order inside the block and does not fault.
use native.Mathlib.Decide.{dec_lt}
use generic_server.Prelude.{
  lt→ltb, ℕ, ◌+◌, ◌-◌, ◌≤◌, ◌≡◌, refl, min, ap, ◌∙◌, some, List, ◌++◌, length, take, drop, arith,
  length-take, ap₂, sym, take-take, length-drop, [], ◌∷◌, replicate, length-replicate, drop_all,
  take_all, append-nil, take-append-drop,
}
use generic_server.Prelude.Int.{pos}
use generic_server.Prelude.Memory.{blit, copy_in, copy_in-some, length-blit, slice-blit}
use generic_server.Buffer.Defs.{
  Buffer, data_size, remain_size, to_string, append, append_char, append_buffer, bzero,
}

pub record IsValid (b : Buffer) : Type 0 where
  pub backed : length b.mem ≡ b.size
  pub ordered : b.rptr ≤ b.wptr
  pub inside : b.wptr ≤ b.size

-- `n` bytes of `src` written at the write pointer.
unfoldable pub extend : ℕ → List ℕ → Buffer → Buffer
extend n src b = record b { mem = blit b.wptr (take n src) b.mem; wptr = b.wptr + n }

extend-zero : (b : Buffer) (src : List ℕ) → extend 0 src b ≡ b
unfolding extend blit
extend-zero b src =
    ap₂ (λ (m : List ℕ) (w : ℕ). record b { mem = m; wptr = w })
      (ap (λ k. take b.wptr b.mem ++ drop k b.mem) (omega arith) ∙ take-append-drop b.wptr b.mem)
      (omega arith)

module _ (b : Buffer) (v : IsValid b) (n : ℕ) (src : List ℕ) (enough : n ≤ length src)
    (room : n ≤ remain_size b) where
  length_taken : length (take n src) ≡ n
  length_taken = omega (arith, length-take n src)

  pub extend-IsValid : IsValid (extend n src b)
  unfolding extend
  extend-IsValid = record {
    backed = length-blit b.wptr (take n src) b.mem (omega (arith, length_taken, v)) ∙ v.backed;
    ordered = omega (arith, v);
    inside = omega (arith, v);
  }

  pub to_string-extend : to_string (extend n src b) ≡ to_string b ++ take n src
  unfolding extend
  to_string-extend =
      slice-blit b.wptr (take n src) b.mem (omega (arith, length_taken, v)) b.rptr
        (b.wptr + n - b.rptr) v.ordered (omega (arith, length_taken, v))

  pub copy-extend : copy_in b.wptr src (pos n) b.mem ≡ some (blit b.wptr (take n src) b.mem)
  copy-extend = copy_in-some b.wptr src n b.mem (omega (arith, v)) enough

  pub append-extend :
      (len : ℕ) → n ≡ min len (remain_size b) → append src (pos len) b ≡ some (n, extend n src b)
  unfolding append extend
  append-extend len e = ground (arith, copy-extend, extend-zero b src)

  pub append_fits :
      (len : ℕ)
      → n ≡ min len (remain_size b)
      → (b' : Buffer) × (append src (pos len) b ≡ some (n, b'))
        × IsValid b'
        × (to_string b' ≡ to_string b ++ take n src)
        × (b'.size ≡ b.size)
  unfolding extend
  append_fits len e = (extend n src b, append-extend len e, extend-IsValid, to_string-extend, refl)

-- What `append` does with `len` bytes of `src`.
abbrev Appends : List ℕ → ℕ → Buffer → Type 0
Appends src len b =
    (b' : Buffer) × (append src (pos len) b ≡ some (min len (remain_size b), b'))
    × IsValid b'
    × (to_string b' ≡ to_string b ++ take (min len (remain_size b)) src)
    × (b'.size ≡ b.size)

-- `append` on a valid buffer never faults: it takes as many bytes as fit, returns their number, and
-- puts exactly these, in order, behind those that are held.
append_lem :
    (src : List ℕ) (len : ℕ) (b : Buffer) → IsValid b → len ≤ length src → Appends src len b
append_lem src len b v h =
    append_fits b v (min len (remain_size b)) src (omega arith) (omega arith) len refl

-- Appending one character is appending a string of one byte.
pub append_char-append :
    (c : ℕ) (b : Buffer) → IsValid b → append_char c b ≡ append (c ∷ []) (pos 1) b
unfolding append_char extend
append_char-append c b v = elim (dec_lt b.wptr b.size) [
  | yes room ↦ rw (
    append-extend b v 1 (c ∷ []) (omega arith) (omega arith) 1 (omega arith),
    lt→ltb 0 (b.size - b.wptr) (omega arith),
    copy-extend b v 1 (c ∷ []) (omega arith) (omega arith),
  )
  | no full ↦
      no_room (omega arith)
      ∙ ap (λ (r : Buffer). some (0, r)) (sym (extend-zero b (c ∷ [])))
      ∙ sym (append-extend b v 0 (c ∷ []) (omega arith) (omega arith) 1 (omega arith))
]
  where
    no_room : b.size ≤ b.wptr → append_char c b ≡ some (0, b)
    no_room h = ground arith

-- Appending another valid buffer takes from the bytes between its pointers, oldest first, as many
-- as fit, and returns their number; the buffer's size stays.
pub append_buffer_lem :
    (other b : Buffer)
    → IsValid b
    → IsValid other
    → (b' : Buffer) × (append_buffer other b ≡ some (min (data_size other) (remain_size b), b'))
      × IsValid b'
      × (to_string b'
          ≡ to_string b ++ take (min (data_size other) (remain_size b)) (to_string other))
      × (b'.size ≡ b.size)
unfolding append_buffer
append_buffer_lem other b v w =
    let (b', e, v', c, s) =
      append_lem (drop other.rptr other.mem) (data_size other) b v
        (omega (arith, length-drop other.rptr other.mem)) in
    (
      b',
      e,
      v',
      c
          ∙ ap (λ (l : List ℕ). to_string b ++ l)
              (sym (take-take _ (data_size other) (drop other.rptr other.mem) (omega arith))),
      s,
    )

-- `bzero` on a valid buffer never faults: it empties the buffer and sets every byte to 0.
bzero_lem :
    (b : Buffer)
    → IsValid b
    → bzero b ≡ some (record { mem = replicate b.size 0; size = b.size; wptr = 0; rptr = 0 })
unfolding bzero blit
bzero_lem b v = rw (copy_in-some 0 z b.size b.mem (omega (arith, v)) (omega (arith, length_z))) (
    ap (λ (m : List ℕ). some (record { mem = m; size = b.size; wptr = 0; rptr = 0 }))
      (ap₂ (λ (l m : List ℕ). l ++ m) all
          (drop_all (0 + length (take b.size z)) b.mem (omega (arith, ap length all, length_z, v)))
        ∙ append-nil z))
  where
    z : List ℕ
    z = replicate b.size 0

    length_z : length z ≡ b.size
    length_z = length-replicate b.size 0

    all : take b.size z ≡ z
    all = take_all b.size z (omega (arith, length_z))
