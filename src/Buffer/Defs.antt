-- ===== src/Buffer/Defs.antt =====
-- src/Buffer.h and src/Buffer.cpp: the class BufferBase and its functions.
use generic_server.Prelude.{
  ℕ, ◌+◌, ◌-◌, ◌^◌, Bool, ◌||◌, Option, some, List, [], ◌∷◌, length, drop, replicate, ltb, leb,
  ◌==◌, if◌then◌else◌, ◌>>=◌,
}
use generic_server.Prelude.Int.{ℤ, pos, negsuc, pos_part, leb_ℤ}
use generic_server.Prelude.Memory.{slice, copy_in}

pub record Buffer : Type 0 where
  pub mem : List ℕ
  pub size : ℕ
  pub wptr : ℕ
  pub rptr : ℕ

-- The constructor BufferBase(data, size).
abbrev pub init : List ℕ → ℕ → Buffer
init mem size = record { mem = mem; size = size; wptr = 0; rptr = 0 }

abbrev pub max_size : ℕ
max_size = 2 ^ 22

-- `new_chars n` is what `new char[n]` yields; no block (`nullptr`) is the empty list.
abbrev pub alloc : (ℕ → List ℕ) → ℤ → List ℕ
alloc new_chars size =
    if leb_ℤ size (pos 0) || leb_ℤ (pos max_size) size then [] else new_chars (pos_part size)

-- The constructor Buffer(size).
abbrev pub make : (ℕ → List ℕ) → ℕ → Buffer
make new_chars size = init (alloc new_chars (pos size)) size

abbrev pub data_size : Buffer → ℕ
data_size b = b.wptr - b.rptr

abbrev pub total_size : Buffer → ℕ
total_size b = b.size

abbrev pub is_empty : Buffer → Bool
is_empty b = b.wptr == b.rptr

abbrev pub is_full : Buffer → Bool
is_full b = b.wptr == b.size

abbrev pub remain_size : Buffer → ℕ
remain_size b = b.size - b.wptr

abbrev pub clear : Buffer → Buffer
clear b = record b { wptr = 0; rptr = 0 }

-- `clear`, then `memset(m_data, 0, m_end - m_data)`.
unfoldable pub bzero : Buffer → Option Buffer
bzero b = do
  mem ← copy_in 0 (replicate b.size 0) (pos b.size) b.mem
  some (record (clear b) { mem = mem })

-- The bytes that `toString` shows: those between the read and the write pointer.
abbrev pub to_string : Buffer → List ℕ
to_string b = slice b.rptr (data_size b) b.mem

unfoldable pub append : List ℕ → ℤ → Buffer → Option (ℕ × Buffer)
append buf len b =
    if leb_ℤ len (pos 0)
    then some (0, b)
    else if leb_ℤ len (pos (remain_size b))
    then (do
      mem ← copy_in b.wptr buf len b.mem
      some (pos_part len, record b { mem = mem; wptr = b.wptr + pos_part len }))
    else (do
      mem ← copy_in b.wptr buf (pos (remain_size b)) b.mem
      some (remain_size b, record b { mem = mem; wptr = b.size }))

unfoldable pub append_char : ℕ → Buffer → Option (ℕ × Buffer)
append_char c b =
    if ltb 0 (b.size - b.wptr)
    then (do
      mem ← copy_in b.wptr (c ∷ []) (pos 1) b.mem
      some (1, record b { mem = mem; wptr = b.wptr + 1 }))
    else some (0, b)

-- append(BufferBase &): what lies between the pointers of the other buffer.
unfoldable pub append_buffer : Buffer → Buffer → Option (ℕ × Buffer)
unfolding append
append_buffer other b = append (drop other.rptr other.mem) (pos (data_size other)) b

unfoldable pub append_string : List ℕ → Buffer → Option (ℕ × Buffer)
unfolding append
append_string str b = append str (pos (length str)) b

-- What `::read` answers: the bytes, as many as the count it returns, or -1 with `errno`.
pub data Answer : Type 0 where
  done : List ℕ → Answer
  failed : ℕ → Answer

-- `::read(fd, m_wptr, remain_size())` puts its bytes at the write pointer; `read n` is its answer
-- when `n` bytes are asked for.
unfoldable pub receive : Answer → Buffer → Option (ℤ × Buffer)
receive (done bytes) b = do
  mem ← copy_in b.wptr bytes (pos (length bytes)) b.mem
  some (pos (length bytes), record b { mem = mem; wptr = b.wptr + length bytes })
receive (failed e) b = some (negsuc 0, b)

unfoldable pub read_in : (ℕ → Answer) → Buffer → Option (ℤ × Buffer)
unfolding receive
read_in read b = receive (read (remain_size b)) b

-- What `write_out` does with the count that `::write` returned.
unfoldable pub advance : ℤ → Buffer → ℤ × Buffer
advance (pos n) b =
    let b' : Buffer = record b { rptr = b.rptr + n } in
    (pos n, if is_empty b' then clear b' else b')
advance (negsuc k) b = (negsuc k, b)

-- `write bytes` is what `::write` returns when it is offered the bytes.
unfoldable pub write_out : (List ℕ → ℤ) → Buffer → ℤ × Buffer
unfolding advance
write_out write b = if leb (data_size b) 0 then (pos 0, b) else advance (write (to_string b)) b
