-- ===== src/Async/Resend.antt =====
-- src/log/Log.cpp (AsyncLogger::append): a message that does not fit the ring at once.
use generic_server.Prelude.{
  ℕ, zero, suc, ◌-◌, ◌<◌, ◌≤◌, ◌≡◌, refl, ap, ap₂, ◌∙◌, some, List, [], ◌∷◌, ◌++◌, length, take,
  take_all, drop_all, append-nil, min, inl, inr, arith,
}
use generic_server.Prelude.Int.{pos}
use generic_server.Ring
use generic_server.Ring.{Ring, contents, avail_size, data_size, retrive}
use generic_server.Ring.Valid.{IsValid, length-contents}
use generic_server.Ring.Append.{append-Takes}
use generic_server.Ring.Retrive.{retrive-Gives}
use generic_server.Async.Drain.{fits_room}
use generic_server.Async.Defs.{append, resend}

empty_room : (r : Ring) (n : ℕ) → IsValid r → contents r ≡ [] → n < r.size → n ≤ avail_size r
empty_room r n v e h = fits_room r n v (omega (arith, h, ap (λ (x : List ℕ). length x) e))

contents_short : (r : Ring) → IsValid r → length (contents r) < r.size
contents_short r v = ground (arith, v, length-contents r v)

-- One call of the loop: the reader took all, and the message is sent again from its first byte.
again :
    (r : Ring) (bytes : List ℕ) (k m : ℕ)
    → IsValid r
    → length (contents r) ≤ k
    → length bytes < r.size
    → (0 < m)
    → m ≤ length bytes
    → (r' : Ring) × (resend (k ∷ []) bytes m r ≡ some (contents r, r', 0))
      × IsValid r'
      × (contents r' ≡ bytes)
unfolding resend
again r bytes k zero v h l p q = absurd (omega arith)
again r bytes k (suc m) v h l p q =
    let (s, g, u, left, i, z) = retrive-Gives r k v in
    let none_left : contents s ≡ [] = left ∙ drop_all k (contents r) h in
    let room : length bytes ≤ avail_size s =
      empty_room s (length bytes) u none_left (omega (arith, z, l)) in
    let (t, e, a) = append-Takes s bytes (length bytes) u (omega arith) (inr room) in
    let whole : min (length bytes) (avail_size s) ≡ length bytes = omega arith in
    let done : suc m - length bytes ≡ 0 = omega arith in
    (
      t,
      rw (g, e, whole, done)
          (ap (λ (x : List ℕ). some (x, t, 0))
            (append-nil (take k (contents r)) ∙ take_all k (contents r) h)),
      a.valid,
      a.gained
          ∙ ap₂ (λ (x y : List ℕ). x ++ y) none_left
              (ap (λ j. take j bytes) whole ∙ take_all (length bytes) bytes (omega arith)),
    )

append_lem :
    (ks bytes : List ℕ) {n : ℕ} (r : Ring) {s : Ring} {x : List ℕ × Ring × ℕ}
    → Ring.append bytes (pos (length bytes)) r ≡ some (n, s)
    → resend ks bytes (length bytes - n) s ≡ some x
    → append ks bytes r ≡ some x
unfolding append
append_lem ks bytes r e f = rw (e, f) refl

-- A message that is shorter than the ring but longer than its free space, with the read position
-- not at 0: once the reader has taken all that waits, AsyncLogger::append sends it again from its
-- first byte, so that the reader gets what waited and the part that had fitted, and then the ring
-- holds the whole message.
pub append_repeats :
    (r : Ring) (bytes : List ℕ) (k : ℕ)
    → IsValid r
    → 0 < r.out_pos
    → avail_size r < length bytes
    → length bytes < r.size
    → r.size ≤ k
    → (r' : Ring) × (append (k ∷ []) bytes r
        ≡ some (contents r ++ take (avail_size r) bytes, r', 0))
      × IsValid r'
      × (contents r' ≡ bytes)
append_repeats r bytes k v o over l h =
    let (s, e, a) = append-Takes r bytes (length bytes) v (omega arith) (inl o) in
    let part : min (length bytes) (avail_size r) ≡ avail_size r = omega arith in
    let (t, f, u, c) =
      again s bytes k (length bytes - avail_size r) a.valid
        (omega (arith, contents_short s a.valid, a.same_size, h)) (omega (arith, a.same_size, l))
        (omega arith) (omega arith) in
    (
      t,
      append_lem (k ∷ []) bytes r (e ∙ ap (λ j. some (j, s)) part) (
          f
          ∙ ap (λ (x : List ℕ). some (x, t, 0))
              (a.gained ∙ ap (λ j. contents r ++ take j bytes) part)),
      u,
      c,
    )
