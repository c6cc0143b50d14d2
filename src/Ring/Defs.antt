-- ===== src/Ring/Defs.antt =====
-- src/log/RingBuffer.h and src/log/RingBuffer.cpp: the class RingBuffer and its functions. `in_pos`
-- and `out_pos` are `m_in` and `m_out`. An access outside the block is a fault, `none`.
use generic_server.Prelude.{
  ℕ, ◌+◌, ◌-◌, ◌%◌, Bool, Option, some, List, [], ◌++◌, drop, take, ltb, leb, ◌==◌, min,
  if◌then◌else◌, ◌>>=◌,
}
use generic_server.Prelude.Int.{ℤ, pos, negsuc, pos_part, ◌-ℤ◌, min_ℤ}
use generic_server.Prelude.Memory.{slice, copy_in, copy_out}

pub record Ring : Type 0 where
  pub mem : List ℕ
  pub size : ℕ
  pub in_pos : ℕ
  pub out_pos : ℕ

-- RingBuffer(size), with the block that `new char[size]` yields.
abbrev pub init : List ℕ → ℕ → Ring
init mem size = record { mem = mem; size = size; in_pos = 0; out_pos = 0 }

abbrev pub is_full : Ring → Bool
is_full r = r.in_pos + 1 == r.out_pos

abbrev pub is_empty : Ring → Bool
is_empty r = r.in_pos == r.out_pos

abbrev pub data_size : Ring → ℕ
data_size r = if leb r.out_pos r.in_pos then r.in_pos - r.out_pos else r.size - r.out_pos + r.in_pos

-- `out - 1 + m_size - in` is not negative; the terms are reordered so that no part is.
abbrev pub avail_size : Ring → ℕ
avail_size r =
    if leb r.out_pos r.in_pos then r.out_pos + r.size - r.in_pos - 1 else r.out_pos - r.in_pos - 1

-- `append` where `m_in >= out`: up to the end of the block, then from its start.
unfoldable pub append_round : List ℕ → ℕ → Ring → Option (ℕ × Ring)
append_round bytes n r =
    let len : ℕ = min n (r.size - r.in_pos) in
    let in1 : ℕ = (r.in_pos + len) % r.size in
    let len2 : ℤ = min_ℤ (pos (n - len)) (pos r.out_pos -ℤ pos 1) in
    (do
      mem1 ← copy_in r.in_pos bytes (pos len) r.mem
      if ltb 0 (n - len)
          then (do
            mem2 ← copy_in in1 (drop len bytes) len2 mem1
            some (
              len + pos_part len2,
              record r { mem = mem2; in_pos = (in1 + pos_part len2) % r.size },
            ))
          else some (len, record r { mem = mem1; in_pos = in1 }))

-- `append` where `m_in < out`: into the gap before the read position.
unfoldable pub append_gap : List ℕ → ℕ → Ring → Option (ℕ × Ring)
append_gap bytes n r =
    let len : ℕ = min n (r.out_pos - r.in_pos - 1) in
    (do
      mem1 ← copy_in r.in_pos bytes (pos len) r.mem
      some (len, record r { mem = mem1; in_pos = r.in_pos + len }))

unfoldable pub append : List ℕ → ℤ → Ring → Option (ℕ × Ring)
append bytes (pos n) r =
    if leb n 0
    then some (0, r)
    else if leb r.out_pos r.in_pos
    then append_round bytes n r
    else append_gap bytes n r
append bytes (negsuc n) r = some (0, r)

-- `retrive` where `in >= m_out`: the bytes that reach `buf`.
unfoldable pub retrive_flat : ℕ → Ring → Option (List ℕ × Ring)
retrive_flat n r =
    let len : ℕ = min n (r.in_pos - r.out_pos) in
    (do
      bytes ← copy_out r.out_pos (pos len) r.mem
      some (bytes, record r { out_pos = r.out_pos + len }))

-- `retrive` where `in < m_out`: up to the end of the block, then from its start.
unfoldable pub retrive_round : ℕ → Ring → Option (List ℕ × Ring)
retrive_round n r =
    let len : ℕ = min n (r.size - r.out_pos) in
    let out1 : ℕ = (r.out_pos + len) % r.size in
    let len2 : ℕ = min (n - len) r.in_pos in
    (do
      bytes1 ← copy_out r.out_pos (pos len) r.mem
      if ltb 0 (n - len)
          then (do
            bytes2 ← copy_out out1 (pos len2) r.mem
            some (bytes1 ++ bytes2, record r { out_pos = (out1 + len2) % r.size }))
          else some (bytes1, record r { out_pos = out1 }))

-- The source returns the number of the bytes.
unfoldable pub retrive : ℤ → Ring → Option (List ℕ × Ring)
retrive (pos n) r =
    if leb n 0
    then some ([], r)
    else if leb r.out_pos r.in_pos
    then retrive_flat n r
    else retrive_round n r
retrive (negsuc n) r = some ([], r)

-- The bytes that wait to be read, oldest first.
abbrev pub contents : Ring → List ℕ
contents r =
    if leb r.out_pos r.in_pos
    then slice r.out_pos (r.in_pos - r.out_pos) r.mem
    else drop r.out_pos r.mem ++ take r.in_pos r.mem
