-- ===== src/Ring/Shared/Writer.antt =====
-- src/log/RingBuffer.cpp (append): what holds between the steps of the thread that appends.
use native.Mathlib.Nat.{mod-eq_of_lt}
use generic_server.Prelude.{
  ℕ, ◌+◌, ◌-◌, ◌%◌, ◌<◌, ◌≡◌, refl, sym, ap, ap₂, ◌∙◌, inl, inr, Bool-cases, some, List, [], ◌++◌,
  length, take, drop, arith, min, ltb, leb, length-drop, append_assoc, take-append-take, false,
  true, append-nil,
}
use generic_server.Prelude.Int.{min_ℤ-pred}
use generic_server.Ring.Defs.{Ring, contents}
use generic_server.Ring.Valid.{IsValid}
use generic_server.Ring.Append.{end-mod}
use generic_server.Ring.Shared.Defs.{
  Call, Writer, w_idle, w_starts, w_round, w_rests, w_last, w_gap, write_step, published,
}
use generic_server.Ring.Shared.Moves.{with_mem, with_in, IsFree, moved_in}
use generic_server.Ring.Shared.States.{Starts, WriterOk, Grew, Writes}
use generic_server.Ring.Shared.Lay.{lay, store}

module _ (r : Ring) (v : IsValid r) where
  begins_round :
      (bytes : List ℕ) (o : ℕ)
      → Starts r bytes o
      → leb o r.in_pos ≡ true
      → Writes r (w_starts bytes o)
  unfolding write_step published
  begins_round bytes o s e =
      let len : ℕ = min (length bytes) (r.size - r.in_pos) in
      let f : IsFree r len = record {
        in_block = omega (arith, v);
        in_gap = ground (arith, v, s, e);
      } in
      let (mem, q, l) = lay r v bytes len (omega arith) f in
      (
        w_round bytes o len,
        with_mem r mem,
        rw (e, q) refl,
        (s, ground arith, refl, l.laid),
        l.grew,
        λ c sent (a, b, d). (a, append-nil sent ∙ b, d),
      )

  begins_gap :
      (bytes : List ℕ) (o : ℕ)
      → Starts r bytes o
      → leb o r.in_pos ≡ false
      → Writes r (w_starts bytes o)
  unfolding write_step published
  begins_gap bytes o s e =
      let len : ℕ = min (length bytes) (o - r.in_pos - 1) in
      let h : r.in_pos < o = ground arith in
      let f : IsFree r len = record {
        in_block = omega (arith, v, h, s.0.0);
        in_gap = ground (arith, v, s, h);
      } in
      let (mem, q, l) = lay r v bytes len (omega arith) f in
      (
        w_gap bytes len,
        with_mem r mem,
        rw (e, q) refl,
        (l.laid, omega (arith, h, s.0.0)),
        l.grew,
        λ c sent (a, b, d).
            (a, append-nil sent ∙ b, ground (arith, d, h, ap (λ (x : List ℕ). length x) a)),
      )

  round_store :
      (bytes : List ℕ) (o len : ℕ)
      → WriterOk r (w_round bytes o len)
      → Writes r (w_round bytes o len)
  unfolding write_step published
  round_store bytes o len (s, b, z, l) = elim (Bool-cases (ltb 0 (length bytes - len))) [
    | inl e ↦
        let full : r.in_pos + len ≡ r.size = ground (arith, l.0) in
        let p : 0 < o = ground (arith, s) in
        let i : (r.in_pos + len) % r.size ≡ 0 =
          end-mod (r.in_pos + len) r.size full (omega (arith, v)) in
        (
          w_rests (drop len bytes) o len,
          moved_in r v len,
          rw e refl,
          ((s.0.0, rw i (ground (arith, s, v))), p, i),
          store r v bytes len l,
          λ c sent (a, m, d). (
            ap (drop len) a,
            ap₂ (λ (x y : List ℕ). x ++ take len y) m a,
            ground (arith, d, z, b),
            omega (arith, z, ap (λ (x : List ℕ). length x) a),
          ),
        )
    | inr e ↦ (
      w_idle len,
      moved_in r v len,
      rw e refl,
      tt,
      store r v bytes len l,
      λ c sent (a, m, d). (
        ap₂ (λ (x y : List ℕ). x ++ take len y) m a,
        ground (arith, d, z, b, s.1, ap (λ (x : List ℕ). length x) a),
      ),
    )
  ]

  rests_copy :
      (bytes : List ℕ) (o done : ℕ)
      → WriterOk r (w_rests bytes o done)
      → Writes r (w_rests bytes o done)
  unfolding write_step published
  rests_copy bytes o done (s, p, z) =
      let len : ℕ = min (length bytes) (o - 1) in
      let f : IsFree r len = record {
        in_block = omega (arith, v, z, s.0);
        in_gap = ground (arith, v, s, z);
      } in
      let (mem, q, l) = lay r v bytes len (omega arith) f in
      (
        w_last bytes len done,
        with_mem r mem,
        rw (min_ℤ-pred (length bytes) o p, q) refl,
        l.laid,
        l.grew,
        λ c sent (a, b, d, h). (
          a,
          append-nil sent ∙ b,
          omega (arith, d, h, ap (λ (x : List ℕ). length x) a, length-drop done c.bytes),
        ),
      )

  gap_store : (bytes : List ℕ) (len : ℕ) → WriterOk r (w_gap bytes len) → Writes r (w_gap bytes len)
  unfolding write_step published
  gap_store bytes len (l, h) =
      let e : (r.in_pos + len) % r.size ≡ r.in_pos + len = mod-eq_of_lt h in
      (
        w_idle len,
        moved_in r v len,
        ap (λ i. some (w_idle len, with_in r i)) (sym e),
        tt,
        store r v bytes len l,
        λ c sent (a, b, d). (ap₂ (λ (x y : List ℕ). x ++ take len y) b a, d),
      )

  last_wrote :
      (c : Call) (sent bytes : List ℕ) (len done : ℕ)
      → bytes ≡ drop done c.bytes
      → sent ≡ c.before ++ take done c.bytes
      → sent ++ take len bytes ≡ c.before ++ take (done + len) c.bytes
  last_wrote c sent bytes len done a b =
      ap₂ (λ (x y : List ℕ). x ++ take len y) b a
      ∙ append_assoc c.before (take done c.bytes) (take len (drop done c.bytes))
      ∙ ap (λ (x : List ℕ). c.before ++ x) (take-append-take done len c.bytes)

  no_step : Grew r r []
  no_step = record {
    valid = v;
    same_out = refl;
    same_size = refl;
    more = omega arith;
    grown = sym (append-nil (contents r));
  }

  pub write_step-Writes : (w : Writer) → WriterOk r w → Writes r w
  unfolding write_step published
  write_step-Writes (w_idle k) ok =
      (w_idle k, r, refl, tt, no_step, λ c sent (a, b). (append-nil sent ∙ a, b))
  write_step-Writes (w_starts bytes o) ok = elim (Bool-cases (leb o r.in_pos)) [
    | inl e ↦ begins_round bytes o ok e
    | inr e ↦ begins_gap bytes o ok e
  ]
  write_step-Writes (w_round bytes o len) ok = round_store bytes o len ok
  write_step-Writes (w_rests bytes o done) ok = rests_copy bytes o done ok
  write_step-Writes (w_last bytes len done) ok = (
    w_idle (done + len),
    moved_in r v len,
    refl,
    tt,
    store r v bytes len ok,
    λ c sent (a, b, d). (last_wrote c sent bytes len done a b, d),
  )
  write_step-Writes (w_gap bytes len) ok = gap_store bytes len ok
