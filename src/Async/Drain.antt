-- ===== src/Async/Drain.antt =====
-- src/log/Log.cpp (AsyncLogger::threadFunc): the rings are emptied, and nothing is lost on the way.
use generic_server.Prelude.{
  no_items, ℕ, zero, suc, ◌+◌, ◌-◌, ◌<◌, ◌≤◌, ◌≡◌, refl, sym, ap, ap₂, ◌∙◌, true, false, some, List,
  [], ◌++◌, length, take, drop, length-drop, take-append-drop, append_assoc, append-nil, ltb,
  Bool-cases, inl, inr, arith,
}
use generic_server.Ring.{avail_size, Ring, is_empty, contents}
use generic_server.Ring.Valid.{IsValid, length-contents}
use generic_server.Ring.Retrive.{retrive-Gives}
use generic_server.Async.Defs.{Writer, buffer_size, high_water_mark, gather, drain}

-- All that was taken from the rings so far.
abbrev pub taken : Writer → List ℕ
taken w = w.out ++ w.waiting

-- There is room in the thread's buffer for what a ring holds next.
abbrev pub HasRoom : Writer → Type 0
HasRoom w = length w.waiting ≤ high_water_mark

gather-taken : (got : List ℕ) (w : Writer) → taken (gather got w) ≡ taken w ++ got
gather-taken got w = elim (Bool-cases (ltb high_water_mark (length (w.waiting ++ got)))) [
  | inl e ↦ rw e (append-nil (w.out ++ (w.waiting ++ got)) ∙ sym (append_assoc w.out w.waiting got))
  | inr e ↦ rw e (sym (append_assoc w.out w.waiting got))
]

gather-HasRoom : (got : List ℕ) (w : Writer) → HasRoom (gather got w)
gather-HasRoom got w = elim (Bool-cases (ltb high_water_mark (length (w.waiting ++ got)))) [
  | inl e ↦ rw e (omega arith)
  | inr e ↦ rw e (ground arith)
]

-- A message fits a ring beside what waits there, if one byte stays free.
pub fits_room : (r : Ring) (n : ℕ) → IsValid r → length (contents r) + n < r.size → n ≤ avail_size r
fits_room r n v h = ground (arith, v, length-contents r v)

empty_lem : (r : Ring) → IsValid r → is_empty r ≡ true → contents r ≡ []
empty_lem r v e = no_items (contents r) (ground (arith, v, length-contents r v))

waits_lem : (r : Ring) → IsValid r → is_empty r ≡ false → 0 < length (contents r)
waits_lem r v e = ground (arith, v, length-contents r v)

-- The ring r gave all it held.
pub record Drained (r : Ring) (w : Writer) (r' : Ring) (w' : Writer) : Type 0 where
  pub valid : IsValid r'
  pub empty : contents r' ≡ []
  pub room : HasRoom w'
  pub all : taken w' ≡ taken w ++ contents r
  pub same_size : r'.size ≡ r.size

pub drain_lem :
    (fuel : ℕ) (r : Ring) (w : Writer)
    → IsValid r
    → HasRoom w
    → length (contents r) < fuel
    → (r' : Ring) × (w' : Writer) × (drain fuel r w ≡ some (r', w')) × Drained r w r' w'
unfolding drain
drain_lem zero r w v h f = absurd (omega arith)
drain_lem (suc fuel) r w v h f = elim (Bool-cases (is_empty r)) [
  | inl e ↦
      let none_left : contents r ≡ [] = empty_lem r v e in
      (
        r,
        w,
        rw e refl,
        record {
          valid = v;
          empty = none_left;
          room = h;
          all = sym (append-nil (taken w)) ∙ ap (λ (l : List ℕ). taken w ++ l) (sym none_left);
          same_size = refl;
        },
      )
  | inr e ↦
      let k : ℕ = buffer_size - length w.waiting in
      let (s, g, u, left, p, z) = retrive-Gives r k v in
      let some_waits : 0 < length (contents r) = waits_lem r v e in
      let shorter : length (contents s) ≡ length (contents r) - k =
        ap (λ (l : List ℕ). length l) left ∙ length-drop k (contents r) in
      let (r', w', q, d) =
        drain_lem fuel s (gather (take k (contents r)) w) u (gather-HasRoom (take k (contents r)) w)
          (omega (arith, h)) in
      (
        r',
        w',
        rw (e, g) q,
        record {
          valid = d.valid;
          empty = d.empty;
          room = d.room;
          all =
              d.all
              ∙ ap₂ (λ (a b : List ℕ). a ++ b) (gather-taken (take k (contents r)) w) left
              ∙ append_assoc (taken w) (take k (contents r)) (drop k (contents r))
              ∙ ap (λ (l : List ℕ). taken w ++ l) (take-append-drop k (contents r));
          same_size = d.same_size ∙ z;
        },
      )
]
