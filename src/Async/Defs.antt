-- ===== src/Async/Defs.antt =====
-- src/log/Log.h and Log.cpp: the class AsyncLogger. `none` is a fault, or that the fuel of a loop
-- ran out. The calls of a thread that logs and those of the logger's thread do not overlap.
use generic_server.Prelude.{
  ℕ, zero, suc, ◌-◌, Bool, ◌||◌, Option, none, some, List, [], ◌∷◌, ◌++◌, length, ltb, ◌==◌,
  if◌then◌else◌, ◌>>=◌,
}
use generic_server.Prelude.Int.{pos}
use generic_server.Ring
use generic_server.Ring.{Ring, is_empty, retrive, contents}

-- m_bufferMap, in the order of the threads' numbers.
abbrev pub BufferMap : Type 0
BufferMap = List (ℕ × Ring)

abbrev pub ring_size : ℕ
ring_size = 32768

unfoldable pub find {ℓ} : {A : Type ℓ} → ℕ → List (ℕ × A) → Option A
find tid [] = none
find tid (p ∷ m) = let rest = find tid m in if tid == p.0 then some p.1 else rest

unfoldable pub store {ℓ} : {A : Type ℓ} → ℕ → A → List (ℕ × A) → List (ℕ × A)
store tid r [] = (tid, r) ∷ []
store tid r (p ∷ m) =
    let rest = store tid r m in
    if tid == p.0 then (tid, r) ∷ m else if ltb tid p.0 then (tid, r) ∷ p ∷ m else p ∷ rest

-- The ring of the thread; a new one has the block that `new` gives.
abbrev pub ring_of : List ℕ → Option Ring → Ring
ring_of block none = Ring.init block ring_size
ring_of block (some r) = r

-- The loop of append while `remain` is above 0. Before each further attempt the logger's thread
-- takes up to the next number of bytes from the ring; where the numbers end, the loop still runs.
-- The bytes that it took, the ring, and what remains.
unfoldable pub resend : List ℕ → List ℕ → ℕ → Ring → Option (List ℕ × Ring × ℕ)
resend [] bytes remain r = some ([], r, remain)
resend (k ∷ ks) bytes zero r = some ([], r, 0)
resend (k ∷ ks) bytes (suc m) r = do
  (got, r₁) ← retrive (pos k) r
  (n, r₂) ← Ring.append bytes (pos (length bytes)) r₁
  (rest, r₃, left) ← resend ks bytes (suc m - n) r₂
  some (got ++ rest, r₃, left)

-- AsyncLogger::append on the ring of the calling thread.
unfoldable pub append : List ℕ → List ℕ → Ring → Option (List ℕ × Ring × ℕ)
append ks bytes r = do
  (n, r₁) ← Ring.append bytes (pos (length bytes)) r
  resend ks bytes (length bytes - n) r₁

-- The whole call, on the map.
unfoldable pub append_for :
    List ℕ → ℕ → List ℕ → List ℕ → BufferMap → Option (List ℕ × BufferMap × ℕ)
append_for block tid ks bytes m = do
  (got, r, left) ← append ks bytes (ring_of block (find tid m))
  some (got, store tid r m, left)

-- The locals of threadFunc: what waits in its buffer; and what the appender was given.
pub record Writer : Type 0 where
  pub waiting : List ℕ
  pub out : List ℕ

abbrev pub buffer_size : ℕ
buffer_size = 65536

abbrev pub high_water_mark : ℕ
high_water_mark = buffer_size - 2048

abbrev pub low_water_mark : ℕ
low_water_mark = 2048

abbrev pub flush : Writer → Writer
flush w = record { waiting = []; out = w.out ++ w.waiting }

abbrev pub gather : List ℕ → Writer → Writer
gather got w =
    let v : Writer = record w { waiting = w.waiting ++ got } in
    if ltb high_water_mark (length v.waiting) then flush v else v

-- The loop over one ring, while it is not empty.
unfoldable pub drain : ℕ → Ring → Writer → Option (Ring × Writer)
drain zero r w = none
drain (suc fuel) r w =
    let rest : Option (Ring × Writer) = (do
      (got, r') ← retrive (pos (buffer_size - length w.waiting)) r
      drain fuel r' (gather got w)) in
    if is_empty r then some (r, w) else rest

-- Each round takes a byte at least.
unfoldable pub drain_all : BufferMap → Writer → Option (BufferMap × Writer)
drain_all [] w = some ([], w)
drain_all ((tid, r) ∷ m) w = do
  (r', w₁) ← drain (suc (length (contents r))) r w
  (m', w₂) ← drain_all m w₁
  some ((tid, r') ∷ m', w₂)

-- One turn of the thread while the logger runs; `late` is that two seconds have passed.
unfoldable pub turn : Bool → BufferMap → Writer → Option (BufferMap × Writer)
turn late m w = do
  (m', v) ← drain_all m w
  some (m', if ltb low_water_mark (length v.waiting) || late then flush v else v)

-- After the loop: what is left is written.
unfoldable pub finish : BufferMap → Writer → Option (BufferMap × Writer)
finish m w = do (m', v) ← drain_all m w; some (m', flush v)
