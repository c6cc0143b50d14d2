-- ===== src/Ring/Shared/States.antt =====
-- src/log/RingBuffer.cpp: what holds between the steps of the two threads.
use generic_server.Prelude.{
  ℕ, ◌+◌, ◌-◌, ◌≤◌, ◌<◌, ◌≡◌, ◌⊎◌, some, List, ◌++◌, length, take, drop, min,
}
use generic_server.Prelude.Memory.{slice}
use generic_server.Ring.Defs.{Ring, contents, avail_size, data_size}
use generic_server.Ring.Valid.{IsValid}
use generic_server.Ring.Shared.Defs.{
  Call, Writer, w_idle, w_starts, w_round, w_rests, w_last, w_gap, write_step, published, Ask,
  Reader, r_idle, r_starts, r_flat, r_round, r_rests, r_last, read_step, freed,
}
use generic_server.Ring.Shared.Moves.{with_in, with_out, IsFree, IsFull}

-- The position that was loaded leaves no more free space than there is.
abbrev pub IsSafeOut : Ring → ℕ → Type 0
IsSafeOut r o = (o < r.size) × (avail_size (with_out r o) ≤ avail_size r)

-- The bytes that the next store publishes are in the block.
abbrev pub IsLaid : Ring → List ℕ → ℕ → Type 0
IsLaid r bytes len = IsFree r len × (slice r.in_pos len r.mem ≡ take len bytes)

abbrev pub Starts : Ring → List ℕ → ℕ → Type 0
Starts r bytes o = IsSafeOut r o × ((0 < o) ⊎ (length bytes ≤ avail_size (with_out r o)))

abbrev pub WriterOk : Ring → Writer → Type 0
WriterOk r (w_idle k) = Unit
WriterOk r (w_starts bytes o) = Starts r bytes o
WriterOk r (w_round bytes o len) =
    Starts r bytes o
    × (o ≤ r.in_pos)
    × (len ≡ min (length bytes) (r.size - r.in_pos))
    × IsLaid r bytes len
WriterOk r (w_rests bytes o done) = IsSafeOut r o × (0 < o) × (r.in_pos ≡ 0)
WriterOk r (w_last bytes len done) = IsLaid r bytes len
WriterOk r (w_gap bytes len) = IsLaid r bytes len × (r.in_pos + len < r.size)

-- How far a call of append is: what was published since it began, and in the end what it returns.
abbrev pub Wrote : Call → List ℕ → Ring → Writer → Type 0
Wrote c sent r (w_idle k) = (sent ≡ c.before ++ take k c.bytes) × (k ≡ min (length c.bytes) c.room)
Wrote c sent r (w_starts bytes o) =
    (bytes ≡ c.bytes) × (sent ≡ c.before) × (c.room ≡ avail_size (with_out r o))
Wrote c sent r (w_round bytes o len) =
    (bytes ≡ c.bytes) × (sent ≡ c.before) × (c.room ≡ avail_size (with_out r o))
Wrote c sent r (w_rests bytes o done) =
    (bytes ≡ drop done c.bytes)
    × (sent ≡ c.before ++ take done c.bytes)
    × (c.room ≡ done + (o - 1))
    × (done ≤ length c.bytes)
Wrote c sent r (w_last bytes len done) =
    (bytes ≡ drop done c.bytes)
    × (sent ≡ c.before ++ take done c.bytes)
    × (done + len ≡ min (length c.bytes) c.room)
Wrote c sent r (w_gap bytes len) =
    (bytes ≡ c.bytes) × (sent ≡ c.before) × (len ≡ min (length c.bytes) c.room)

-- The reader's view of a step of the writer.
pub record Grew (r r' : Ring) (new : List ℕ) : Type 0 where
  pub valid : IsValid r'
  pub same_out : r'.out_pos ≡ r.out_pos
  pub same_size : r'.size ≡ r.size
  pub more : data_size r ≤ data_size r'
  pub grown : contents r' ≡ contents r ++ new

-- A step of the writer that faults nowhere.
abbrev pub Writes : Ring → Writer → Type 0
Writes r w =
    (w' : Writer) × (r' : Ring) × (write_step w r ≡ some (w', r'))
    × WriterOk r' w'
    × Grew r r' (published w)
    × ((c : Call) (sent : List ℕ) → Wrote c sent r w → Wrote c (sent ++ published w) r' w')

-- The position that was loaded shows no more bytes than wait.
abbrev pub IsSafeIn : Ring → ℕ → Type 0
IsSafeIn r i = (i < r.size) × (data_size (with_in r i) ≤ data_size r)

-- The bytes that the next store frees are the oldest ones.
abbrev pub IsTaken : Ring → List ℕ → ℕ → Type 0
IsTaken r bytes len = IsFull r len × (bytes ≡ take len (contents r))

abbrev pub ReaderOk : Ring → Reader → Type 0
ReaderOk r (r_idle bytes) = Unit
ReaderOk r (r_starts n i) = IsSafeIn r i
ReaderOk r (r_flat bytes len) = IsTaken r bytes len × (r.out_pos + len < r.size)
ReaderOk r (r_round n i bytes len) =
    IsSafeIn r i × (i < r.out_pos) × (len ≡ min n (r.size - r.out_pos)) × IsTaken r bytes len
ReaderOk r (r_rests n i before) = IsSafeIn r i × (r.out_pos ≡ 0)
ReaderOk r (r_last before bytes len) = IsTaken r bytes len

-- How far a call of retrive is: what was freed since it began, and in the end what it gives.
abbrev pub Obtained : Ask → List ℕ → Ring → Reader → Type 0
Obtained a got r (r_idle bytes) = (got ≡ a.before ++ bytes) × (length bytes ≡ min a.want a.shown)
Obtained a got r (r_starts n i) =
    (n ≡ a.want) × (got ≡ a.before) × (a.shown ≡ data_size (with_in r i))
Obtained a got r (r_flat bytes len) = (got ≡ a.before) × (length bytes ≡ min a.want a.shown)
Obtained a got r (r_round n i bytes len) =
    (n ≡ a.want) × (got ≡ a.before) × (a.shown ≡ data_size (with_in r i))
Obtained a got r (r_rests n i part) =
    (got ≡ a.before ++ part) × (n + length part ≡ a.want) × (length part + i ≡ a.shown)
Obtained a got r (r_last part bytes len) =
    (got ≡ a.before ++ part) × (length part + length bytes ≡ min a.want a.shown)

-- The writer's view of a step of the reader.
pub record Shrank (r r' : Ring) (gone : List ℕ) : Type 0 where
  pub valid : IsValid r'
  pub same_in : r'.in_pos ≡ r.in_pos
  pub same_size : r'.size ≡ r.size
  pub same_mem : r'.mem ≡ r.mem
  pub more : avail_size r ≤ avail_size r'
  pub less : contents r ≡ gone ++ contents r'

-- A step of the reader that faults nowhere.
abbrev pub Reads : Ring → Reader → Type 0
Reads r d =
    (d' : Reader) × (r' : Ring) × (read_step d r ≡ some (d', r'))
    × ReaderOk r' d'
    × Shrank r r' (freed d)
    × ((a : Ask) (got : List ℕ) → Obtained a got r d → Obtained a (got ++ freed d) r' d')
