-- ===== src/Circular/Refine.antt =====
-- src/log/-CircularBuffer.cpp: the array is a queue of one buffer less than it has.
use generic_server.Prelude.{
  ℕ, suc, ◌+◌, ◌-◌, ◌<◌, ◌≡◌, ◌≢◌, refl, ap, ap₂, ◌∙◌, true, false, Option, none, some, List, [],
  ◌∷◌, ◌++◌, length, get_or, set, length-set, ltb, if◌then◌else◌, arith, not, Bool-cases, inl, inr,
  get_or-set_self,
}
use native.Mathlib.Decide.{dec_lt}
use generic_server.Circular.Defs.{
  Circular, inc, is_full, Outcome, done, waits, ends, push, pop, fill,
}
use generic_server.Circular.Items.{
  IsValid, wrap, items, count, contents, length-items, items-cons, items-set,
}

-- A producer fills the buffer at the tail and comes to the test of push; a consumer pops and reads
-- the buffer through the pointer at once.
pub data Attempt : Type 0 where
  puts : List ℕ → Attempt
  takes : Attempt

pub data Answer : Type 0 where
  accepted : Answer
  sleeps : Answer
  refused : Answer
  busy : Answer
  got : List ℕ → Answer
  nothing : Answer

abbrev pub put_answer : Outcome × Circular → Answer × Circular
put_answer (done, c) = (accepted, c)
put_answer (waits, c) = (sleeps, c)
put_answer (ends, c) = (refused, c)

abbrev take_answer : Outcome × Option ℕ × Circular → Answer × Circular
take_answer (o, some i, c) = (got (get_or c.queue i []), c)
take_answer (o, none, c) = (nothing, c)

unfoldable pub attempt : Attempt → Circular → Answer × Circular
attempt (puts b) c = put_answer (push (fill b c))
attempt takes c = take_answer (pop c)

-- A queue of at most so many buffers.
unfoldable pub queue_attempt : ℕ → Attempt → List (List ℕ) → Answer × List (List ℕ)
queue_attempt cap (puts b) l = if ltb (length l) cap then (accepted, l ++ b ∷ []) else (sleeps, l)
queue_attempt cap takes [] = (nothing, [])
queue_attempt cap takes (b ∷ l) = (got b, l)

-- One call is one attempt of the queue.
pub record Refines (c : Circular) (o : Attempt) : Type 0 where
  pub valid : IsValid (attempt o c).1
  pub same_size : length (attempt o c).1.queue ≡ length c.queue
  pub answer : (attempt o c).0 ≡ (queue_attempt (length c.queue - 1) o (contents c)).0
  pub after : contents (attempt o c).1 ≡ (queue_attempt (length c.queue - 1) o (contents c)).1

refines :
    {c : Circular} (o : Attempt) (s : Answer × Circular) (t : Answer × List (List ℕ))
    → attempt o c ≡ s
    → queue_attempt (length c.queue - 1) o (contents c) ≡ t
    → IsValid s.1
    → length s.1.queue ≡ length c.queue
    → s.0 ≡ t.0
    → contents s.1 ≡ t.1
    → Refines c o
refines o s t e f v l a w = record {
  valid = rw e v;
  same_size = rw e l;
  answer = rw (e, f) a;
  after = rw (e, f) w;
}

module _ (c : Circular) (v : IsValid c) where
  full_lem : is_full c ≡ not (ltb (count c) (length c.queue - 1))
  full_lem = ground (arith, v)

  length-contents : length (contents c) ≡ count c
  length-contents = length-items c.queue c.head (count c)

  module _ (b : List ℕ) where
    abbrev pub filled : List (List ℕ)
    filled = set c.queue c.tail b

    length-filled : length filled ≡ length c.queue
    length-filled = length-set c.queue c.tail b

    -- The buffer at the tail is not one of those that wait.
    unmoved : (k : ℕ) → k ≡ count c → items filled c.head k ≡ contents c
    unmoved k e =
        ap (items filled c.head) e
        ∙ items-set c.queue c.head (count c) c.tail b (λ j h w. apart j h w)
      where
        apart : (j : ℕ) → j < count c → wrap (length c.queue) (c.head + j) ≢ c.tail
        apart j h w = ground (arith, v)

    gained :
        ltb (count c) (length c.queue - 1) ≡ true
        → items filled c.head (suc (count c)) ≡ contents c ++ b ∷ []
    unfolding items
    gained e =
        let n : wrap (length filled) (c.head + count c) ≡ c.tail =
          ground (arith, v, length-filled) in
        ap₂ (λ (l : List (List ℕ)) (x : List ℕ). l ++ x ∷ []) (unmoved (count c) refl)
          (ap (λ (i : ℕ). get_or filled i []) n ∙ get_or-set_self c.queue c.tail b [] v.tail_in)

    abbrev pub grown : Circular
    grown = record c { queue = filled; tail = inc c.tail c }

    pub attempt-grown :
        ltb (count c) (length c.queue - 1) ≡ true → attempt (puts b) c ≡ (accepted, grown)
    unfolding attempt push
    attempt-grown e = ground (arith, v, length-filled)

    pub attempt-kept :
        ltb (count c) (length c.queue - 1) ≡ false → attempt (puts b) c ≡ (sleeps, fill b c)
    unfolding attempt push
    attempt-kept e = ground (arith, v, length-filled)

    count-grown : ltb (count c) (length c.queue - 1) ≡ true → count grown ≡ suc (count c)
    count-grown e = ground (arith, v, length-filled)

    count-kept : count (fill b c) ≡ count c
    count-kept = ground (arith, length-filled)

    put-Refines : Refines c (puts b)
    unfolding queue_attempt
    put-Refines = elim (Bool-cases (ltb (count c) (length c.queue - 1))) [
      | inl e ↦
          let f : ltb (length (contents c)) (length c.queue - 1) ≡ true = rw (length-contents, e) in
          refines (puts b) (accepted, grown) (accepted, contents c ++ b ∷ []) (attempt-grown e)
            (rw f) (ground (arith, v, length-filled)) length-filled refl
            (ap (items filled c.head) (count-grown e) ∙ gained e)
      | inr e ↦
          let f : ltb (length (contents c)) (length c.queue - 1) ≡ false =
            rw (length-contents, e) in
          refines (puts b) (sleeps, fill b c) (sleeps, contents c) (attempt-kept e) (rw f)
            (ground (arith, v, length-filled)) length-filled refl
            (unmoved (count (fill b c)) count-kept)
    ]

  abbrev popped : Circular
  popped = record c { head = inc c.head c }

  attempt-none : count c ≡ 0 → attempt takes c ≡ (nothing, c)
  unfolding attempt pop
  attempt-none e = ground (arith, v)

  attempt-got : 0 < count c → attempt takes c ≡ (got (get_or c.queue c.head []), popped)
  unfolding attempt pop
  attempt-got h = ground (arith, v)

  no_items : count c ≡ 0 → contents c ≡ []
  unfolding items
  no_items e = ap (items c.queue c.head) e

  wrap-inc : wrap (length c.queue) (suc c.head) ≡ inc c.head c
  wrap-inc = ground (arith, v)

  count-popped : 0 < count c → count popped ≡ count c - 1
  count-popped h = ground (arith, v)

  take-Refines : Refines c takes
  unfolding queue_attempt
  take-Refines = elim (dec_lt 0 (count c)) [
    | no z ↦
        let e : count c ≡ 0 = omega (arith, z) in
        let f : contents c ≡ [] = no_items e in
        refines takes (nothing, c) (nothing, []) (attempt-none e) (rw f) v refl refl f
    | yes h ↦
        let k : ℕ = count c - 1 in
        let e : count c ≡ suc k = omega arith in
        let f : contents c ≡ get_or c.queue c.head [] ∷ items c.queue (inc c.head c) k =
          ap (items c.queue c.head) e
          ∙ items-cons c.queue c.head k v.head_in (ground (arith, v))
          ∙ ap (λ (i : ℕ). get_or c.queue c.head [] ∷ items c.queue i k) wrap-inc in
        refines takes (got (get_or c.queue c.head []), popped)
          (got (get_or c.queue c.head []), items c.queue (inc c.head c) k) (attempt-got h) (rw f)
          (ground (arith, v)) refl refl (ap (items c.queue (inc c.head c)) (count-popped h))
  ]

pub attempt-Refines : (c : Circular) (o : Attempt) → IsValid c → Refines c o
attempt-Refines c (puts b) v = put-Refines c v b
attempt-Refines c takes v = take-Refines c v
