-- ===== src/Async/Turns.antt =====
-- src/log/Log.cpp (AsyncLogger::threadFunc): a turn over all the rings, and the end of the thread.
use generic_server.Prelude.{
  ℕ, suc, ◌≡◌, refl, sym, ap, ap₂, ◌∙◌, Bool, ◌||◌, some, List, [], ◌∷◌, ◌++◌, length, append_assoc,
  append-nil, ltb, Bool-cases, inl, inr, arith,
}
use generic_server.Ring.{Ring, contents}
use generic_server.Ring.Valid.{IsValid}
use generic_server.Async.Defs.{
  BufferMap, Writer, ring_size, low_water_mark, flush, drain_all, turn, finish,
}
use generic_server.Async.Drain.{taken, HasRoom, drain_lem}

-- What waits in the rings, for each thread.
abbrev pub Pending : Type 0
Pending = List (ℕ × List ℕ)

unfoldable pub view : BufferMap → Pending
view [] = []
view ((tid, r) ∷ m) = (tid, contents r) ∷ view m

-- What waits, thread by thread.
unfoldable pub held : Pending → List ℕ
held [] = []
held ((tid, bytes) ∷ p) = bytes ++ held p

unfoldable pub emptied : Pending → Pending
emptied [] = []
emptied ((tid, bytes) ∷ p) = (tid, []) ∷ emptied p

pub data Sound : BufferMap → Type 0 where
  nothing : Sound []
  also :
      (tid : ℕ) {r : Ring} {m : BufferMap}
      → IsValid r
      → r.size ≡ ring_size
      → Sound m
      → Sound ((tid, r) ∷ m)

-- All the rings gave what they held, in the order of the threads' numbers.
pub record Turned (m : BufferMap) (w : Writer) (m' : BufferMap) (w' : Writer) : Type 0 where
  pub sound : Sound m'
  pub empty : view m' ≡ emptied (view m)
  pub room : HasRoom w'
  pub all : taken w' ≡ taken w ++ held (view m)

drain_all_lem :
    {m : BufferMap} (w : Writer)
    → Sound m
    → HasRoom w
    → (m' : BufferMap) × (w' : Writer) × (drain_all m w ≡ some (m', w')) × Turned m w m' w'
unfolding drain_all view held emptied
drain_all_lem w nothing h = (
  [],
  w,
  refl,
  record { sound = nothing; empty = refl; room = h; all = sym (append-nil (taken w)) },
)
drain_all_lem w (also tid {r} {m} v z s) h =
    let (r', w₁, e, d) = drain_lem (suc (length (contents r))) r w v h (omega arith) in
    let (m', w', f, t) = drain_all_lem w₁ s d.room in
    (
      (tid, r') ∷ m',
      w',
      rw (e, f) refl,
      record {
        sound = also tid d.valid (d.same_size ∙ z) t.sound;
        empty = ap₂ (λ (b : List ℕ) (p : Pending). (tid, b) ∷ p) d.empty t.empty;
        room = t.room;
        all =
            t.all
            ∙ ap (λ (b : List ℕ). b ++ held (view m)) d.all
            ∙ append_assoc (taken w) (contents r) (held (view m));
      },
    )

-- One turn of AsyncLogger::threadFunc over valid rings of 32768 bytes, begun with at most 63488
-- bytes in its buffer, ends without a fault: it leaves every ring empty and valid and no more than
-- 63488 bytes in the buffer, and what it has given to the appender with what is still in its buffer
-- has grown by all that the rings held, in the order of the map.
pub turn-Turned :
    {m : BufferMap} (late : Bool) (w : Writer)
    → Sound m
    → HasRoom w
    → (m' : BufferMap) × (w' : Writer) × (turn late m w ≡ some (m', w')) × Turned m w m' w'
unfolding turn
turn-Turned late w s h =
    let (m', v, e, t) = drain_all_lem w s h in
    elim (Bool-cases (ltb low_water_mark (length v.waiting) || late)) [
      | inl c ↦ (
        m',
        flush v,
        rw (e, c) refl,
        record {
          sound = t.sound;
          empty = t.empty;
          room = omega arith;
          all = append-nil (v.out ++ v.waiting) ∙ t.all;
        },
      )
      | inr c ↦ (m', v, rw (e, c) refl, t)
    ]

-- When the logger stops, valid rings are emptied and all is given to the appender.
pub finish-all :
    {m : BufferMap} (w : Writer)
    → Sound m
    → HasRoom w
    → (m' : BufferMap) × (w' : Writer) × (finish m w ≡ some (m', w'))
      × (w'.out ≡ taken w ++ held (view m))
unfolding finish
finish-all w s h = let (m', v, e, t) = drain_all_lem w s h in (m', flush v, rw e refl, t.all)
