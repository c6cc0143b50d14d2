-- ===== src/Ring/Shared/Reader.antt =====
-- src/log/RingBuffer.cpp (retrive): what holds between the steps of the thread that retrieves.
use native.Mathlib.Nat.{mod-eq_of_lt}
use generic_server.Prelude.{
  ℕ, ◌+◌, ◌-◌, ◌%◌, ◌≤◌, ◌<◌, ◌≡◌, refl, sym, ap, ap₂, ◌∙◌, inl, inr, Bool-cases, some, List, [],
  ◌++◌, length, arith, min, ltb, leb, true, false, length-drop, length-append, append_assoc,
  append-nil, length-take, take-append-drop,
}
use generic_server.Prelude.Memory.{slice, copy_out-some}
use generic_server.Ring.Defs.{Ring, contents, avail_size, data_size}
use generic_server.Ring.Valid.{IsValid, length-contents}
use generic_server.Ring.Append.{end-mod}
use generic_server.Ring.Shared.Defs.{
  Reader, r_idle, r_starts, r_flat, r_round, r_rests, r_last, read_step, freed,
}
use generic_server.Ring.Shared.Moves.{with_out, IsFull, take_waiting, moved_out, Freed, store-Freed}
use generic_server.Ring.Shared.States.{IsSafeIn, IsTaken, ReaderOk, Shrank, Reads}

avail-data : (r : Ring) → IsValid r → avail_size r + data_size r + 1 ≡ r.size
avail-data r v = ground (arith, v)

module _ (r : Ring) (v : IsValid r) where
  no_step : Shrank r r []
  no_step = record {
    valid = v;
    same_in = refl;
    same_size = refl;
    same_mem = refl;
    more = omega arith;
    less = refl;
  }

  -- A store of the read position.
  store : (bytes : List ℕ) (len : ℕ) → IsTaken r bytes len → Shrank r (moved_out r v len) bytes
  store bytes len (f, e) =
      let p : Freed r v len = store-Freed r v len f in
      record {
        valid = p.valid;
        same_in = refl;
        same_size = refl;
        same_mem = refl;
        more = omega (
          arith,
          avail-data r v,
          avail-data (moved_out r v len) p.valid,
          length-contents r v,
          length-contents (moved_out r v len) p.valid,
          ap (λ (x : List ℕ). length x) p.less,
          length-drop len (contents r),
        );
        less = sym (ap₂ (λ (x y : List ℕ). x ++ y) e p.less ∙ take-append-drop len (contents r));
      }

  taken : (len : ℕ) → IsFull r len → IsTaken r (slice r.out_pos len r.mem) len
  taken len f = (f, take_waiting r v len f)

  length-taken : (bytes : List ℕ) (len : ℕ) → IsTaken r bytes len → length bytes ≡ len
  length-taken bytes len (f, e) =
      ap (λ (x : List ℕ). length x) e
      ∙ omega (arith, f, length-take len (contents r), length-contents r v)

  starts_flat : (n i : ℕ) → IsSafeIn r i → leb r.out_pos i ≡ true → Reads r (r_starts n i)
  unfolding read_step freed
  starts_flat n i s e =
      let len : ℕ = min n (i - r.out_pos) in
      let h : r.out_pos ≤ i = ground arith in
      let f : IsFull r len = record {
        in_block = omega (arith, h, s.0);
        in_data = ground (arith, s, h);
      } in
      (
        r_flat (slice r.out_pos len r.mem) len,
        r,
        rw (e, copy_out-some r.out_pos len r.mem (omega (arith, v, f))) refl,
        (taken len f, omega (arith, h, s.0, v)),
        no_step,
        λ a got (b, c, d).
            (append-nil got ∙ c, ground (arith, b, d, h, length-taken _ len (taken len f))),
      )

  starts_round : (n i : ℕ) → IsSafeIn r i → leb r.out_pos i ≡ false → Reads r (r_starts n i)
  unfolding read_step freed
  starts_round n i s e =
      let len : ℕ = min n (r.size - r.out_pos) in
      let h : i < r.out_pos = ground arith in
      let f : IsFull r len = record {
        in_block = omega (arith, v);
        in_data = ground (arith, s, h, v);
      } in
      (
        r_round n i (slice r.out_pos len r.mem) len,
        r,
        rw (e, copy_out-some r.out_pos len r.mem (omega (arith, v, f))) refl,
        (s, h, refl, taken len f),
        no_step,
        λ a got (b, c, d). (b, append-nil got ∙ c, d),
      )

  round_store :
      (n i : ℕ) (bytes : List ℕ) (len : ℕ)
      → ReaderOk r (r_round n i bytes len)
      → Reads r (r_round n i bytes len)
  unfolding read_step freed
  round_store n i bytes len (s, b, z, t) = elim (Bool-cases (ltb 0 (n - len))) [
    | inl e ↦
        let e' : len < n = ground arith in
        let full : r.out_pos + len ≡ r.size = ground (arith, t.0, v) in
        let o : (r.out_pos + len) % r.size ≡ 0 =
          end-mod (r.out_pos + len) r.size full (omega (arith, v)) in
        (
          r_rests (n - len) i bytes,
          moved_out r v len,
          rw e refl,
          ((s.0, rw o (ground (arith, s, v, b))), o),
          store bytes len t,
          λ a got (c, m, d). (
            ap (λ (x : List ℕ). x ++ bytes) m,
            omega (arith, c, z, e', length-taken bytes len t),
            ground (arith, d, z, b, e', length-taken bytes len t),
          ),
        )
    | inr e ↦ (
      r_idle bytes,
      moved_out r v len,
      rw e refl,
      tt,
      store bytes len t,
      λ a got (c, m, d). (
        ap (λ (x : List ℕ). x ++ bytes) m,
        ground (arith, c, d, z, b, e, v, length-taken bytes len t),
      ),
    )
  ]

  rests_copy :
      (n i : ℕ) (before : List ℕ) → ReaderOk r (r_rests n i before) → Reads r (r_rests n i before)
  unfolding read_step freed
  rests_copy n i before (s, z) =
      let len : ℕ = min n i in
      let f : IsFull r len = record {
        in_block = omega (arith, z, s.0);
        in_data = ground (arith, s, z);
      } in
      (
        r_last before (slice r.out_pos len r.mem) len,
        r,
        rw (copy_out-some r.out_pos len r.mem (omega (arith, v, f))) refl,
        taken len f,
        no_step,
        λ a got (b, c, d).
            (append-nil got ∙ b, omega (arith, c, d, length-taken _ len (taken len f))),
      )

  flat_store :
      (bytes : List ℕ) (len : ℕ) → ReaderOk r (r_flat bytes len) → Reads r (r_flat bytes len)
  unfolding read_step freed
  flat_store bytes len (t, h) =
      let e : (r.out_pos + len) % r.size ≡ r.out_pos + len = mod-eq_of_lt h in
      (
        r_idle bytes,
        moved_out r v len,
        ap (λ o. some (r_idle bytes, with_out r o)) (sym e),
        tt,
        store bytes len t,
        λ a got (b, c). (ap (λ (x : List ℕ). x ++ bytes) b, c),
      )

  pub read_step-Reads : (d : Reader) → ReaderOk r d → Reads r d
  unfolding read_step freed
  read_step-Reads (r_idle bytes) ok =
      (r_idle bytes, r, refl, tt, no_step, λ a got (b, c). (append-nil got ∙ b, c))
  read_step-Reads (r_starts n i) ok = elim (Bool-cases (leb r.out_pos i)) [
    | inl e ↦ starts_flat n i ok e
    | inr e ↦ starts_round n i ok e
  ]
  read_step-Reads (r_flat bytes len) ok = flat_store bytes len ok
  read_step-Reads (r_round n i bytes len) ok = round_store n i bytes len ok
  read_step-Reads (r_rests n i before) ok = rests_copy n i before ok
  read_step-Reads (r_last before bytes len) ok = (
    r_idle (before ++ bytes),
    moved_out r v len,
    refl,
    tt,
    store bytes len ok,
    λ a got (b, c). (
      ap (λ (x : List ℕ). x ++ bytes) b ∙ append_assoc a.before before bytes,
      length-append before bytes ∙ c,
    ),
  )
