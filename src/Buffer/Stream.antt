-- ===== src/Buffer/Stream.antt =====
-- src/Buffer.cpp: the buffer as a byte queue between its producers (`append`, `read_in`) and the
-- socket (`write_out`).
use generic_server.Prelude.{
  ℕ, ◌+◌, ◌≤◌, ◌≡◌, refl, sym, ap, ◌∙◌, inl, inr, min, some, Option, List, [], ◌∷◌, ◌++◌, length,
  take, drop, arith, length-take, length-drop, take_all, append-nil, flow_trans, leb, ◌>>=◌,
  Bool-cases,
}
use generic_server.Prelude.Int.{ℤ, pos, negsuc, pos_part}
use generic_server.Prelude.Memory.{slice, take-append-slice}
use generic_server.Buffer.Defs.{
  Buffer, data_size, remain_size, to_string, append, read_in, receive, write_out, advance, is_empty,
  Answer, done, failed,
}
use generic_server.Buffer.Valid.{
  IsValid, extend, extend-IsValid, to_string-extend, copy-extend, append_fits,
}

-- What the manual says of `::read`: at most as many bytes as asked for.
abbrev pub Reads : (ℕ → Answer) → Type 0
Reads read = (n : ℕ) (bytes : List ℕ) → read n ≡ done bytes → length bytes ≤ n

-- What the manual says of `::write`: it takes at most what it is offered.
abbrev pub Writes : (List ℕ → ℤ) → Type 0
Writes write = (bytes : List ℕ) → pos_part (write bytes) ≤ length bytes

pub length-to_string : (b : Buffer) → IsValid b → length (to_string b) ≡ data_size b
length-to_string b v =
    omega (arith, v, length-take (data_size b) (drop b.rptr b.mem), length-drop b.rptr b.mem)

-- What a read delivers.
abbrev pub delivered : Answer → List ℕ
delivered (done bytes) = bytes
delivered (failed e) = []

abbrev pub result : Answer → ℤ
result (done bytes) = pos (length bytes)
result (failed e) = negsuc 0

receive_lem :
    (a : Answer) (b : Buffer)
    → IsValid b
    → length (delivered a) ≤ remain_size b
    → (b' : Buffer) × (receive a b ≡ some (result a, b'))
      × IsValid b'
      × (to_string b' ≡ to_string b ++ delivered a)
unfolding receive extend
receive_lem (done bytes) b v h =
    let all : take (length bytes) bytes ≡ bytes = take_all (length bytes) bytes (omega arith) in
    (
      extend (length bytes) bytes b,
      rw (copy-extend b v (length bytes) bytes (omega arith) h),
      extend-IsValid b v (length bytes) bytes (omega arith) h,
      to_string-extend b v (length bytes) bytes (omega arith) h ∙ ap (◌++◌ (to_string b)) all,
    )
receive_lem (failed e) b v h = (b, refl, v, sym (append-nil (to_string b)))

delivered-le :
    (a : Answer) (n : ℕ)
    → ((bytes : List ℕ) → a ≡ done bytes → length bytes ≤ n)
    → length (delivered a) ≤ n
delivered-le (done bytes) n h = h bytes refl
delivered-le (failed e) n h = omega arith

-- What `read_in` does with the answer `a`.
abbrev pub Receives : Answer → (ℕ → Answer) → Buffer → Type 0
Receives a read b =
    (b' : Buffer) × (read_in read b ≡ some (result a, b'))
    × IsValid b'
    × (to_string b' ≡ to_string b ++ delivered a)

-- `read_in` never faults: it appends what the socket delivered, and nothing on an error.
pub read_in_lem :
    (read : ℕ → Answer) (b : Buffer)
    → Reads read
    → IsValid b
    → Receives (read (remain_size b)) read b
unfolding read_in
read_in_lem read b r v =
    let n : ℕ = remain_size b in receive_lem (read n) b v (delivered-le (read n) n (r n))

-- `write_out` takes the bytes that were sent off the front, and keeps the others in order.
advance_lem :
    (n : ℕ) (b : Buffer)
    → IsValid b
    → n ≤ data_size b
    → let (k, b') = advance (pos n) b in
      IsValid b' × (take n (to_string b) ++ to_string b' ≡ to_string b)
unfolding advance
advance_lem n b v h = elim (Bool-cases (is_empty (record b { rptr = b.rptr + n }))) [
  | inl e ↦ rw e (
    record { backed = v.backed; ordered = omega arith; inside = omega arith },
    append-nil (take n (to_string b))
        ∙ take_all n (to_string b) (ground (arith, length-to_string b v)),
  )
  | inr e ↦ rw e (
    record { backed = v.backed; ordered = ground (arith, v); inside = v.inside },
    ap (λ k. take n (to_string b) ++ slice (b.rptr + n) k b.mem) (omega arith)
        ∙ take-append-slice b.rptr n (data_size b) b.mem,
  )
]

-- What was sent, from the count that `write_out` returns.
abbrev pub sent : ℤ → Buffer → List ℕ
sent k b = take (pos_part k) (to_string b)

-- The bytes counted as sent are the oldest, and the others stay in order.
abbrev pub Sends : Buffer → ℤ × Buffer → Type 0
Sends b r = IsValid r.1 × (sent r.0 b ++ to_string r.1 ≡ to_string b)

-- `write_out` on every branch: the bytes counted as sent were the oldest ones, the rest stays.
pub write_out_lem :
    (write : List ℕ → ℤ) (b : Buffer) → Writes write → IsValid b → Sends b (write_out write b)
unfolding write_out
write_out_lem write b w v = elim (Bool-cases (leb (data_size b) 0)) [
  | inl e ↦ rw e (v, refl)
  | inr e ↦ rw e (go (write (to_string b)) (omega (arith, w (to_string b), length-to_string b v)))
]
  where
    go :
        (k : ℤ)
        → pos_part k ≤ data_size b
        → IsValid (advance k b).1
          × (sent (advance k b).0 b ++ to_string (advance k b).1 ≡ to_string b)
    go (pos n) h = advance_lem n b v h
    go (negsuc k) h = (v, refl)

-- What happens to a buffer: a producer appends, or a socket is read or written.
pub data Op : Type 0 where
  append_op : List ℕ → Op
  read_op : (ℕ → Answer) → Op
  write_op : (List ℕ → ℤ) → Op

abbrev pub Lawful : List Op → Type 0
Lawful [] = Unit {0}
Lawful (append_op src ∷ ops) = Lawful ops
Lawful (read_op read ∷ ops) = Reads read × Lawful ops
Lawful (write_op write ∷ ops) = Writes write × Lawful ops

-- One operation: the bytes that went in, those that went out, and the buffer after it.
unfoldable pub step : Op → Buffer → Option (List ℕ × List ℕ × Buffer)
unfolding append read_in write_out
step (append_op src) b = do (n, b') ← append src (pos (length src)) b; some (take n src, [], b')
step (read_op read) b = do (n, b') ← read_in read b; some (delivered (read (remain_size b)), [], b')
step (write_op write) b = let (k, b') = write_out write b in some ([], sent k b, b')

unfoldable pub run : List Op → Buffer → Option (List ℕ × List ℕ × Buffer)
unfolding step
run [] b = some ([], [], b)
run (op ∷ ops) b = do
  (i, o, b') ← step op b
  (is, os, b'') ← run ops b'
  some (i ++ is, o ++ os, b'')

-- The run did not fault; what went in, what went out and the buffer left account for every byte.
abbrev pub Accounts : Buffer → Option (List ℕ × List ℕ × Buffer) → Type 0
Accounts b r =
    (i : List ℕ) × (o : List ℕ) × (b' : Buffer) × (r ≡ some (i, o, b'))
    × IsValid b'
    × (to_string b ++ i ≡ o ++ to_string b')

abbrev LawfulOp : Op → Type 0
LawfulOp (append_op src) = Unit {0}
LawfulOp (read_op read) = Reads read
LawfulOp (write_op write) = Writes write

head_law : (op : Op) (ops : List Op) → Lawful (op ∷ ops) → LawfulOp op
head_law (append_op src) ops l = tt
head_law (read_op read) ops l = l.0
head_law (write_op write) ops l = l.0

tail_law : (op : Op) (ops : List Op) → Lawful (op ∷ ops) → Lawful ops
tail_law (append_op src) ops l = l
tail_law (read_op read) ops l = l.1
tail_law (write_op write) ops l = l.1

step-Accounts : (op : Op) (b : Buffer) → LawfulOp op → IsValid b → Accounts b (step op b)
unfolding step
step-Accounts (append_op src) b l v =
    let n : ℕ = min (length src) (remain_size b) in
    let (b', e, v', c, s) = append_fits b v n src (omega arith) (omega arith) (length src) refl in
    (take n src, [], b', rw e, v', sym c)
step-Accounts (read_op read) b l v =
    let (b', e, v', c) = read_in_lem read b l v in
    (delivered (read (remain_size b)), [], b', rw e, v', sym c)
step-Accounts (write_op write) b l v =
    let (v', e) = write_out_lem write b l v in
    let (k, b') = write_out write b in
    ([], sent k b, b', refl, v', append-nil (to_string b) ∙ sym e)

run-Accounts : (ops : List Op) (b : Buffer) → Lawful ops → IsValid b → Accounts b (run ops b)
unfolding run
run-Accounts [] b l v = ([], [], b, refl, v, append-nil (to_string b))
run-Accounts (op ∷ ops) b l v =
    let (i, o, b', e, v', c) = step-Accounts op b (head_law op ops l) v in
    let (is, os, b'', e', v'', c') = run-Accounts ops b' (tail_law op ops l) v' in
    (
      i ++ is,
      o ++ os,
      b'',
      rw (e, e'),
      v'',
      flow_trans (to_string b) i o (to_string b') is os (to_string b'') c c',
    )

-- Whatever is appended, received and written out, in any order: no operation faults, and the bytes
-- held at first with those that went in are those that went out with those held at last, in order.
-- The kernel reads at most what it is asked for and writes at most what it is offered.
pub run_keeps_stream :
    (ops : List Op) (b : Buffer) → Lawful ops → IsValid b → Accounts b (run ops b)
run_keeps_stream ops b l v = run-Accounts ops b l v
