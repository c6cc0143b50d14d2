-- ===== src/Ring/Shared/Defs.antt =====
-- src/log/RingBuffer.cpp: append and retrive by steps between which the other thread may run. A
-- step is a load of the position that the other thread stores, a memcpy, or a store of the own
-- position; `m_in` and `m_out` are atomic and sequentially consistent, and each thread alone stores
-- its own. A fault is `none`.
use generic_server.Prelude.{
  ℕ, ◌+◌, ◌-◌, ◌%◌, ◌<◌, ◌≤◌, ◌≡◌, ◌⊎◌, Option, some, List, [], ◌++◌, length, take, drop, ltb, leb,
  min, if◌then◌else◌, ◌>>=◌,
}
use generic_server.Prelude.Int.{pos, pos_part, ◌-ℤ◌, min_ℤ}
use generic_server.Prelude.Memory.{copy_in, copy_out}
use generic_server.Ring.Defs.{Ring, avail_size, data_size}

-- Where append is: what is still to be written, `out` as it was loaded, the length of the memcpy
-- that was made, and how many bytes were published before. `w_idle` has what the last call
-- returned.
pub data Writer : Type 0 where
  w_idle : ℕ → Writer
  w_starts : List ℕ → ℕ → Writer
  w_round : List ℕ → ℕ → ℕ → Writer
  w_rests : List ℕ → ℕ → ℕ → Writer
  w_last : List ℕ → ℕ → ℕ → Writer
  w_gap : List ℕ → ℕ → Writer

-- Where retrive is: how many bytes are wanted, `in` as it was loaded, what the memcpy gave, and
-- what came before. `r_idle` has what the last call gave.
pub data Reader : Type 0 where
  r_idle : List ℕ → Reader
  r_starts : ℕ → ℕ → Reader
  r_flat : List ℕ → ℕ → Reader
  r_round : ℕ → ℕ → List ℕ → ℕ → Reader
  r_rests : ℕ → ℕ → List ℕ → Reader
  r_last : List ℕ → List ℕ → ℕ → Reader

-- append(data, size) up to the load of `m_out`.
unfoldable pub call_append : List ℕ → Ring → Writer
call_append bytes r = if leb (length bytes) 0 then w_idle 0 else w_starts bytes r.out_pos

unfoldable pub write_step : Writer → Ring → Option (Writer × Ring)
write_step (w_idle k) r = some (w_idle k, r)
write_step (w_starts bytes out) r =
    let len : ℕ = min (length bytes) (r.size - r.in_pos) in
    let gap : ℕ = min (length bytes) (out - r.in_pos - 1) in
    if leb out r.in_pos
    then (do
      mem ← copy_in r.in_pos bytes (pos len) r.mem
      some (w_round bytes out len, record r { mem = mem }))
    else (do
      mem ← copy_in r.in_pos bytes (pos gap) r.mem
      some (w_gap bytes gap, record r { mem = mem }))
write_step (w_round bytes out len) r =
    let s : Ring = record r { in_pos = (r.in_pos + len) % r.size } in
    some (if ltb 0 (length bytes - len) then w_rests (drop len bytes) out len else w_idle len, s)
write_step (w_rests bytes out done) r =
    let len = min_ℤ (pos (length bytes)) (pos out -ℤ pos 1) in
    (do
      mem ← copy_in r.in_pos bytes len r.mem
      some (w_last bytes (pos_part len) done, record r { mem = mem }))
write_step (w_last bytes len done) r =
    some (w_idle (done + len), record r { in_pos = (r.in_pos + len) % r.size })
write_step (w_gap bytes len) r = some (w_idle len, record r { in_pos = r.in_pos + len })

-- retrive(buf, size) up to the load of `m_in`.
unfoldable pub call_retrive : ℕ → Ring → Reader
call_retrive n r = if leb n 0 then r_idle [] else r_starts n r.in_pos

unfoldable pub read_step : Reader → Ring → Option (Reader × Ring)
read_step (r_idle bytes) r = some (r_idle bytes, r)
read_step (r_starts n inn) r =
    let flat : ℕ = min n (inn - r.out_pos) in
    let len : ℕ = min n (r.size - r.out_pos) in
    if leb r.out_pos inn
    then (do bytes ← copy_out r.out_pos (pos flat) r.mem; some (r_flat bytes flat, r))
    else (do bytes ← copy_out r.out_pos (pos len) r.mem; some (r_round n inn bytes len, r))
read_step (r_flat bytes len) r = some (r_idle bytes, record r { out_pos = r.out_pos + len })
read_step (r_round n inn bytes len) r =
    let s : Ring = record r { out_pos = (r.out_pos + len) % r.size } in
    some (if ltb 0 (n - len) then r_rests (n - len) inn bytes else r_idle bytes, s)
read_step (r_rests n inn before) r =
    let len : ℕ = min n inn in
    (do bytes ← copy_out r.out_pos (pos len) r.mem; some (r_last before bytes len, r))
read_step (r_last before bytes len) r =
    some (r_idle (before ++ bytes), record r { out_pos = (r.out_pos + len) % r.size })

-- The bytes that the next step publishes by its store of m_in, and those that it frees by its store
-- of m_out.
unfoldable pub published : Writer → List ℕ
published (w_idle k) = []
published (w_starts bytes out) = []
published (w_round bytes out len) = take len bytes
published (w_rests bytes out done) = []
published (w_last bytes len done) = take len bytes
published (w_gap bytes len) = take len bytes

unfoldable pub freed : Reader → List ℕ
freed (r_idle bytes) = []
freed (r_starts n inn) = []
freed (r_flat bytes len) = bytes
freed (r_round n inn bytes len) = bytes
freed (r_rests n inn before) = []
freed (r_last before bytes len) = bytes

-- A call of append: its bytes, what was published before it, and the room that it saw. A call of
-- retrive: how many bytes it wants, what was freed before it, and how many it saw.
pub record Call : Type 0 where
  pub bytes : List ℕ
  pub before : List ℕ
  pub room : ℕ

pub record Ask : Type 0 where
  pub want : ℕ
  pub before : List ℕ
  pub shown : ℕ

-- The ring, the two threads with their last calls, and what was published and freed so far.
pub record System : Type 0 where
  pub ring : Ring
  pub writer : Writer
  pub reader : Reader
  pub call : Call
  pub ask : Ask
  pub sent : List ℕ
  pub got : List ℕ

-- A step of one of the threads. A call of append begins away from the read position 0, or fits.
pub data Step (s : System) : System → Type 0 where
  appends :
      (k : ℕ) (bytes : List ℕ)
      → s.writer ≡ w_idle k
      → (0 < s.ring.out_pos) ⊎ (length bytes ≤ avail_size s.ring)
      → Step s (record s {
        writer = call_append bytes s.ring;
        call = record { bytes = bytes; before = s.sent; room = avail_size s.ring };
      })
  writes :
      (w : Writer) (r : Ring)
      → write_step s.writer s.ring ≡ some (w, r)
      → Step s (record s { writer = w; ring = r; sent = s.sent ++ published s.writer })
  retrieves :
      (before : List ℕ) (n : ℕ)
      → s.reader ≡ r_idle before
      → Step s (record s {
        reader = call_retrive n s.ring;
        ask = record { want = n; before = s.got; shown = data_size s.ring };
      })
  reads :
      (d : Reader) (r : Ring)
      → read_step s.reader s.ring ≡ some (d, r)
      → Step s (record s { reader = d; ring = r; got = s.got ++ freed s.reader })

pub data Reach (s : System) : System → Type 0 where
  start : Reach s s
  next : {t u : System} → Reach s t → Step t u → Reach s u
