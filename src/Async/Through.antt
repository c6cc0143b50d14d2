-- ===== src/Async/Through.antt =====
-- src/log/Log.cpp (AsyncLogger): calls of append from any threads, turns of the logger's thread and
-- its end, as queues of bytes.
use generic_server.Prelude.{
  length-append, ℕ, ◌-◌, ◌<◌, ◌≤◌, ◌≡◌, refl, sym, ap, ap₂, ◌∙◌, Bool, Option, none, some, List, [],
  ◌∷◌, ◌++◌, length, append_assoc, ltb, ◌==◌, if◌then◌else◌, Bool-cases, inl, inr, arith, min, take,
  take_all, ◌>>=◌,
}
use mathlib.Core.Path.{subst}
use generic_server.Ring.{Ring, contents, avail_size}
use generic_server.Ring.Valid.{IsValid}
use generic_server.Ring.Append.{append-Takes}
use generic_server.Async.Defs.{
  BufferMap, Writer, ring_size, find, store, ring_of, resend, append, append_for, turn, finish,
}
use generic_server.Async.Drain.{fits_room, taken, HasRoom}
use generic_server.Async.Turns.{
  Pending, view, held, emptied, Sound, nothing, also, turn-Turned, finish-all,
}

-- A thread's call of append, or a turn of the logger's thread.
pub data Event : Type 0 where
  logs : ℕ → List ℕ → Event
  turns : Bool → Event

-- A call of append that need not wait; one that must is `none`.
unfoldable pub logs_now : List ℕ → ℕ → List ℕ → BufferMap → Option BufferMap
logs_now block tid bytes m = do
  (got, m', left) ← append_for block tid [] bytes m
  if left == 0 then some m' else none

-- The events, then the end of the logger's thread.
unfoldable pub run : List ℕ → List Event → BufferMap → Writer → Option (BufferMap × Writer)
run block [] m w = finish m w
run block (logs tid bytes ∷ es) m w = do m' ← logs_now block tid bytes m; run block es m' w
run block (turns late ∷ es) m w = do (m', w') ← turn late m w; run block es m' w'

abbrev pub or_nothing : Option (List ℕ) → List ℕ
or_nothing none = []
or_nothing (some bytes) = bytes

-- What a thread's bytes are then.
abbrev pub with_more : ℕ → List ℕ → Pending → List ℕ
with_more tid bytes p = or_nothing (find tid p) ++ bytes

-- What is written: at a turn all that the threads logged since the last, thread by thread.
unfoldable pub said : List Event → Pending → List ℕ
said [] p = held p
said (logs tid bytes ∷ es) p = said es (store tid (with_more tid bytes p) p)
said (turns late ∷ es) p = held p ++ said es (emptied p)

-- Between two turns no thread logs more than its ring holds.
pub data Fits : List Event → Pending → Type 0 where
  fits_end : (p : Pending) → Fits [] p
  fits_logs :
      {tid : ℕ} {bytes : List ℕ} {es : List Event} {p : Pending}
      → length (with_more tid bytes p) < ring_size
      → Fits es (store tid (with_more tid bytes p) p)
      → Fits (logs tid bytes ∷ es) p
  fits_turns :
      {late : Bool} {es : List Event} {p : Pending} → Fits es (emptied p) → Fits (turns late ∷ es) p

view-store :
    (tid : ℕ) (r : Ring) (m : BufferMap) → view (store tid r m) ≡ store tid (contents r) (view m)
unfolding view store
view-store tid r [] = refl
view-store tid r ((t, s) ∷ m) = elim (Bool-cases (tid == t)) [
  | inl e ↦ rw e refl
  | inr e ↦ elim (Bool-cases (ltb tid t)) [
    | inl f ↦ rw (e, f) refl
    | inr f ↦ rw (e, f) (ap (λ (p : Pending). (t, contents s) ∷ p) (view-store tid r m))
  ]
]

store-Sound :
    (tid : ℕ) {r : Ring} {m : BufferMap}
    → IsValid r
    → r.size ≡ ring_size
    → Sound m
    → Sound (store tid r m)
unfolding store
store-Sound tid v z nothing = also tid v z nothing
store-Sound tid v z (also t {r = s} {m} u y k) = elim (Bool-cases (tid == t)) [
  | inl e ↦ rw e (also tid v z k)
  | inr e ↦ elim (Bool-cases (ltb tid t)) [
    | inl f ↦ rw (e, f) (also tid v z (also t u y k))
    | inr f ↦ rw (e, f) (also t u y (store-Sound tid v z k))
  ]
]

-- The ring that append finds or makes.
Found : Ring → ℕ → BufferMap → Type 0
Found r tid m = IsValid r × (r.size ≡ ring_size) × (contents r ≡ or_nothing (find tid (view m)))

module _ (block : List ℕ) (sized : length block ≡ ring_size) where
  ring_of-Found : (tid : ℕ) {m : BufferMap} → Sound m → Found (ring_of block (find tid m)) tid m
  unfolding find view Found
  ring_of-Found tid nothing =
      (record { backed = sized; in_range = omega arith; out_range = omega arith }, refl, refl)
  ring_of-Found tid (also t {r = s} {m} u y k) = elim (Bool-cases (tid == t)) [
    | inl e ↦ rw e (u, y, refl)
    | inr e ↦ rw e (ring_of-Found tid k)
  ]

  logs_lem :
      (tid : ℕ) (bytes : List ℕ) {m : BufferMap}
      → Sound m
      → length (with_more tid bytes (view m)) < ring_size
      → (m' : BufferMap) × (logs_now block tid bytes m ≡ some m')
        × Sound m'
        × (view m' ≡ store tid (with_more tid bytes (view m)) (view m))
  unfolding logs_now append_for append resend Found
  logs_lem tid bytes {m} s h =
      let r : Ring = ring_of block (find tid m) in
      let (v, z, c) = ring_of-Found tid s in
      let room : length bytes ≤ avail_size r = fits_room r (length bytes) v (
        omega (
          arith,
          z,
          h,
          length-append (or_nothing (find tid (view m))) bytes,
          ap (λ (x : List ℕ). length x) c,
        )) in
      let (q, e, a) = append-Takes r bytes (length bytes) v (omega arith) (inr room) in
      let whole : min (length bytes) (avail_size r) ≡ length bytes = omega arith in
      let none_left : length bytes - length bytes ≡ 0 = omega arith in
      let now : contents q ≡ with_more tid bytes (view m) =
        a.gained
        ∙ ap₂ (λ (x : List ℕ) (y : List ℕ). x ++ y) c
            (ap (λ k. take k bytes) whole ∙ take_all (length bytes) bytes (omega arith)) in
      (
        store tid q m,
        rw (e, whole, none_left) refl,
        store-Sound tid a.valid (a.same_size ∙ z) s,
        view-store tid q m ∙ ap (λ (l : List ℕ). store tid l (view m)) now,
      )

  -- Threads call AsyncLogger::append and the logger's thread takes its turns, in any order, no call
  -- during another; at first the rings are valid, of 32768 bytes as every new one, and the thread's
  -- buffer holds at most 63488 bytes, and between two turns no thread has more than 32767 bytes in
  -- its ring. Then no call faults or waits, and when the thread has ended, the appender was given
  -- exactly what it was given and what waited before, and then for each turn and for the end all
  -- that the threads logged since the turn before, by threads in the order of the map, each
  -- thread's bytes in the order of its calls.
  pub run-said :
      (es : List Event) {m : BufferMap} (w : Writer)
      → Sound m
      → HasRoom w
      → Fits es (view m)
      → (m' : BufferMap) × (w' : Writer) × (run block es m w ≡ some (m', w'))
        × (w'.out ≡ taken w ++ said es (view m))
  unfolding run said
  run-said [] w s h f = finish-all w s h
  run-said (logs tid bytes ∷ es) {m} w s h (fits_logs l f) =
      let (m₁, e, k, g) = logs_lem tid bytes s l in
      let (m', w', q, u) = run-said es {m = m₁} w k h (subst (Fits es) (sym g) f) in
      (m', w', rw e q, u ∙ ap (λ (p : Pending). taken w ++ said es p) g)
  run-said (turns late ∷ es) {m} w s h (fits_turns f) =
      let (m₁, w₁, e, t) = turn-Turned late w s h in
      let (m', w', q, u) =
        run-said es {m = m₁} w₁ t.sound t.room (subst (Fits es) (sym t.empty) f) in
      (
        m',
        w',
        rw e q,
        u
            ∙ ap₂ (λ (b : List ℕ) (p : Pending). b ++ said es p) t.all t.empty
            ∙ append_assoc (taken w) (held (view m)) (said es (emptied (view m))),
      )
