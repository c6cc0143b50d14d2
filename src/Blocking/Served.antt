-- ===== src/Blocking/Served.antt =====
-- src/BlockingQueue.cpp: any interleaving of writers and readers.
use generic_server.Prelude.{
  ℕ, suc, ◌-◌, ◌<◌, ◌≤◌, ◌≡◌, refl, sym, ap, ◌∙◌, Option, none, some, List, [], ◌∷◌, ◌++◌, length,
  length-append, append_assoc, append-nil, arith,
}
use native.Mathlib.Decide.{dec_lt}
use generic_server.Blocking.Defs.{Blocking, init, put, take, retake, take_front}

-- The items that a call of take returned.
abbrev pub items_of : Option ℕ → List ℕ
items_of none = []
items_of (some x) = x ∷ []

-- What the threads can do: the items put and the items taken so far, in order, and the queue. A
-- reader may wake up without being notified.
pub data Run : List ℕ → List ℕ → Blocking → Type 0 where
  starts : Run [] [] init
  puts : {i o : List ℕ} {b : Blocking} (x : ℕ) → Run i o b → Run (i ++ x ∷ []) o (put x b)
  takes : {i o : List ℕ} {b : Blocking} → Run i o b → Run i (o ++ items_of (take b).0) (take b).1
  retakes :
      {i o : List ℕ} {b : Blocking}
      → Run i o b
      → 0 < b.woken
      → Run i (o ++ items_of (retake b).0) (retake b).1
  stirs :
      {i o : List ℕ} {b : Blocking}
      → Run i o b
      → 0 < b.asleep
      → Run i o (record b { asleep = b.asleep - 1; woken = suc b.woken })

-- What was put is what was taken and what waits, in this order; and while a reader sleeps there are
-- no more items than readers on their way to them.
pub record Serves (i o : List ℕ) (b : Blocking) : Type 0 where
  pub in_order : i ≡ o ++ b.queue
  pub attended : 0 < b.asleep → length b.queue ≤ b.woken

put-queue : (x : ℕ) (b : Blocking) → (put x b).queue ≡ b.queue ++ x ∷ []
unfolding put
put-queue x b = ground arith

-- A reader that sleeps, or did before one was woken, has no more items than readers before it.
Attended : Blocking → Type 0
Attended b = 0 < b.asleep → length b.queue ≤ b.woken

put-Attended : (x : ℕ) (b : Blocking) → Attended b → Attended (put x b)
unfolding put Attended
put-Attended x b h p = elim (dec_lt 0 b.asleep) [
  | yes a ↦ let g : length b.queue ≤ b.woken = h a in ground (arith, length-append b.queue (x ∷ []))
  | no a ↦ absurd (ground arith)
]

module _ (b : Blocking) (h : Attended b) where
  take-Attended : Attended (take b).1
  unfolding take Attended
  take-Attended = go b.queue refl
    where
      go : (q : List ℕ) → b.queue ≡ q → Attended (take_front q b).1
      go [] e p = omega (arith, ap length e)
      go (x ∷ q) e p = omega (arith, ap length e, h p)

  retake-Attended : 0 < b.woken → Attended (retake b).1
  unfolding retake Attended
  retake-Attended w = go b.queue refl
    where
      go : (q : List ℕ) → b.queue ≡ q → Attended (take_front q (record b { woken = b.woken - 1 })).1
      go [] e p = omega (arith, ap length e)
      go (x ∷ q) e p = omega (arith, ap length e, h p)

-- Reading the front moves it from the queue to what was taken.
take_front-order :
    (q o : List ℕ) (b : Blocking)
    → b.queue ≡ q
    → o ++ q ≡ (o ++ items_of (take_front q b).0) ++ (take_front q b).1.queue
take_front-order [] o b e = sym (append-nil (o ++ [])) ∙ ap (λ (l : List ℕ). (o ++ []) ++ l) (sym e)
take_front-order (x ∷ q) o b e = sym (append_assoc o (x ∷ []) q)

take-order :
    (o : List ℕ) (b : Blocking) → o ++ b.queue ≡ (o ++ items_of (take b).0) ++ (take b).1.queue
unfolding take
take-order o b = take_front-order b.queue o b refl

retake-order :
    (o : List ℕ) (b : Blocking) → o ++ b.queue ≡ (o ++ items_of (retake b).0) ++ (retake b).1.queue
unfolding retake
retake-order o b = take_front-order b.queue o (record b { woken = b.woken - 1 }) refl

-- However writers and readers interleave: the items are taken in the order in which they were put,
-- each once, and none that was put is missing from the queue and from those that were taken; and
-- while a reader sleeps, each item in the queue has a reader that was woken, so no reader sleeps
-- through the arrival of its item.
pub Run-Serves : {i o : List ℕ} {b : Blocking} → Run i o b → Serves i o b
unfolding Attended
Run-Serves starts = record { in_order = refl; attended = λ h. omega arith }
Run-Serves (puts {i} {o} {b} x r) =
    let s : Serves i o b = Run-Serves r in
    record {
      in_order =
          ap (λ (l : List ℕ). l ++ x ∷ []) s.in_order
          ∙ append_assoc o b.queue (x ∷ [])
          ∙ ap (λ (l : List ℕ). o ++ l) (sym (put-queue x b));
      attended = put-Attended x b s.attended;
    }
Run-Serves (takes {i} {o} {b} r) =
    let s : Serves i o b = Run-Serves r in
    record { in_order = s.in_order ∙ take-order o b; attended = take-Attended b s.attended }
Run-Serves (retakes {i} {o} {b} r h) =
    let s : Serves i o b = Run-Serves r in
    record { in_order = s.in_order ∙ retake-order o b; attended = retake-Attended b s.attended h }
Run-Serves (stirs {i} {o} {b} r h) =
    let s : Serves i o b = Run-Serves r in
    record { in_order = s.in_order; attended = λ p. omega (arith, s.attended h) }
