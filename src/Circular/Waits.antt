-- ===== src/Circular/Waits.antt =====
-- src/log/-CircularBuffer.cpp: a producer that sleeps in push while the array is full, and a
-- consumer.
use generic_server.Prelude.{
  ℕ, zero, suc, ◌-◌, ◌≡◌, refl, ap, ap₂, ◌∙◌, Bool, true, false, Option, none, some, List, [], ◌∷◌,
  length, get_or, set, ltb, if◌then◌else◌, Bool-cases, inl, inr, get_or-set_self,
}
use mathlib.Core.Path.{subst}
use generic_server.Circular.Defs.{Circular, push, pop, is_empty, fill, tail_buffer}
use generic_server.Circular.Items.{IsValid, contents, count}
use generic_server.Circular.Refine.{
  Attempt, puts, Answer, accepted, sleeps, refused, busy, got, nothing, put_answer, attempt,
  queue_attempt, Refines, attempt-grown, attempt-kept, attempt-Refines,
}
use generic_server.Circular.Refine

-- The producer fills the buffer at the tail and calls push; it is woken in push and tests again;
-- the consumer tests in pop, where it sleeps if nothing is there and will test again.
pub data Op : Type 0 where
  calls : List ℕ → Op
  wakes : Op
  takes : Op

-- The array, and whether the producer sleeps in push.
pub record Shared : Type 0 where
  pub ring : Circular
  pub asleep : Bool

abbrev is_asleep : Answer → Bool
is_asleep sleeps = true
is_asleep accepted = false
is_asleep refused = false
is_asleep busy = false
is_asleep (got b) = false
is_asleep nothing = false

abbrev after_push : Answer × Circular → Answer × Shared
after_push r = (r.0, record { ring = r.1; asleep = is_asleep r.0 })

-- A producer that sleeps calls nothing, and one that does not is not woken.
unfoldable pub step : Op → Shared → Answer × Shared
step (calls b) s = if s.asleep then (busy, s) else after_push (attempt (puts b) s.ring)
step wakes s = if s.asleep then after_push (put_answer (push s.ring)) else (busy, s)
step takes s =
    let r : Answer × Circular = attempt Refine.takes s.ring in (r.0, record s { ring = r.1 })

-- A queue with the buffer of a producer that waits for room, if there is one.
pub record Queue : Type 0 where
  pub items : List (List ℕ)
  pub waiting : Option (List ℕ)

abbrev after_put : List ℕ → Answer × List (List ℕ) → Answer × Queue
after_put b r = (r.0, record { items = r.1; waiting = if is_asleep r.0 then some b else none })

-- A queue of at most so many buffers.
unfoldable pub queue_step : ℕ → Op → Queue → Answer × Queue
queue_step cap (calls b) q = elim q.waiting [
  | none ↦ after_put b (queue_attempt cap (puts b) q.items)
  | some p ↦ (busy, q)
]
queue_step cap wakes q = elim q.waiting [
  | none ↦ (busy, q)
  | some p ↦ after_put p (queue_attempt cap (puts p) q.items)
]
queue_step cap takes q =
    let r : Answer × List (List ℕ) = queue_attempt cap Refine.takes q.items in
    (r.0, record q { items = r.1 })

abbrev tail_item : Circular → List ℕ
tail_item c = get_or c.queue (tail_buffer c) []

abbrev pub view : Shared → Queue
view s = record {
  items = contents s.ring;
  waiting = if s.asleep then some (tail_item s.ring) else none;
}

unfoldable pub run : List Op → Shared → List Answer × Queue
run [] s = ([], view s)
run (o ∷ os) s =
    let a : Answer × Shared = step o s in
    let r : List Answer × Queue = run os a.1 in (a.0 ∷ r.0, r.1)

unfoldable pub queue_run : ℕ → List Op → Queue → List Answer × Queue
queue_run cap [] q = ([], q)
queue_run cap (o ∷ os) q =
    let a : Answer × Queue = queue_step cap o q in
    let r : List Answer × Queue = queue_run cap os a.1 in (a.0 ∷ r.0, r.1)

abbrev queue_of : List (List ℕ) → Option (List ℕ) → Queue
queue_of l p = record { items = l; waiting = p }

abbrev Steps : Shared → Answer × Shared → Answer × Queue → Type 0
Steps s t q =
    IsValid t.1.ring
    × (length t.1.ring.queue ≡ length s.ring.queue)
    × (t.0 ≡ q.0)
    × (view t.1 ≡ q.1)

set-get_or : (q : List (List ℕ)) (i : ℕ) → set q i (get_or q i []) ≡ q
set-get_or [] i = refl
set-get_or (x ∷ q) zero = refl
set-get_or (x ∷ q) (suc i) = ap (λ (l : List (List ℕ)). x ∷ l) (set-get_or q i)

filled_again : (c : Circular) → fill (tail_item c) c ≡ c
filled_again c = ap (λ (q : List (List ℕ)). record c { queue = q }) (set-get_or c.queue c.tail)

module _ (c : Circular) (v : IsValid c) where
  abbrev cap : ℕ
  cap = length c.queue - 1

  -- A producer that goes to sleep leaves its buffer at the tail.
  left_at_tail :
      (b : List ℕ)
      → (if is_asleep (attempt (puts b) c).0 then some (tail_item (attempt (puts b) c).1) else none)
        ≡ (if is_asleep (attempt (puts b) c).0 then some b else none)
  left_at_tail b = elim (Bool-cases (ltb (count c) (length c.queue - 1))) [
    | inl e ↦ rw (attempt-grown c v b e) refl
    | inr e ↦ rw (attempt-kept c v b e) (ap some (get_or-set_self c.queue c.tail b [] v.tail_in))
  ]

  pushed :
      (s : Shared) (b : List ℕ)
      → length c.queue ≡ length s.ring.queue
      → Steps s
          (after_push (attempt (puts b) c))
          (after_put b (queue_attempt cap (puts b) (contents c)))
  pushed s b n =
      let r : Refines c (puts b) = attempt-Refines c (puts b) v in
      (
        r.valid,
        r.same_size ∙ n,
        r.answer,
        ap₂ (λ (l : List (List ℕ)) (p : Option (List ℕ)). queue_of l p) r.after
            (left_at_tail b ∙ ap (λ (a : Answer). if is_asleep a then some b else none) r.answer),
      )

  -- A pop leaves the buffer at the tail.
  tail_stays : tail_item (attempt Refine.takes c).1 ≡ tail_item c
  unfolding attempt pop
  tail_stays = elim (Bool-cases (is_empty c)) [
    | inl e ↦ rw (v.runs, e) refl
    | inr e ↦ rw (v.runs, e) refl
  ]

  tested_again : attempt (puts (tail_item c)) c ≡ put_answer (push c)
  unfolding attempt
  tested_again = ap (λ (x : Circular). put_answer (push x)) (filled_again c)

  step_lem :
      (o : Op) (a : Bool)
      → let s : Shared = record { ring = c; asleep = a } in
        Steps s (step o s) (queue_step cap o (view s))
  unfolding step queue_step
  step_lem (calls b) false = pushed (record { ring = c; asleep = false }) b refl
  step_lem (calls b) true = (v, refl, refl, refl)
  step_lem wakes false = (v, refl, refl, refl)
  step_lem wakes true =
      let s : Shared = record { ring = c; asleep = true } in
      subst
        (λ (r : Answer × Circular).
          Steps s (after_push r)
            (after_put (tail_item c) (queue_attempt cap (puts (tail_item c)) (contents c))))
        tested_again (pushed s (tail_item c) refl)
  step_lem takes a =
      let r : Refines c Refine.takes = attempt-Refines c Refine.takes v in
      (
        r.valid,
        r.same_size,
        r.answer,
        ap₂ queue_of r.after (ap (λ (l : List ℕ). if a then some l else none) tail_stays),
      )

-- Between a producer that fills the buffer at the tail before each push, sleeps in push while the
-- array is full and is woken any number of times, and a consumer that pops and reads at once, the
-- array answers as a queue does that holds one buffer less than the array, first in, first out,
-- with the buffer of the producer that waits behind it; in the end the buffers are those of the
-- queue. It was not stopped.
pub run-queue_run :
    (os : List Op) (s : Shared)
    → IsValid s.ring
    → run os s ≡ queue_run (length s.ring.queue - 1) os (view s)
unfolding run queue_run
run-queue_run [] s v = refl
run-queue_run (o ∷ os) s v =
    let (w, n, a, e) = step_lem s.ring v o s.asleep in
    ap₂ (λ (x : Answer) (r : List Answer × Queue). (x ∷ r.0, r.1)) a
      (run-queue_run os (step o s).1 w ∙ ap₂ (λ (k : ℕ) (q : Queue). queue_run (k - 1) os q) n e)
