-- ===== src/Ring/Shared/Lay.antt =====
-- src/log/RingBuffer.cpp (append): its memcpy and its store.
use generic_server.Prelude.{
  ℕ, ◌≤◌, ◌≡◌, refl, sym, ap, ◌∙◌, some, List, [], ◌++◌, length, take, arith, length-take,
  length-append, append-nil,
}
use generic_server.Prelude.Int.{pos}
use generic_server.Prelude.Memory.{slice, blit, copy_in, copy_in-some}
use generic_server.Ring.Defs.{Ring, contents}
use generic_server.Ring.Valid.{IsValid, length-contents}
use generic_server.Ring.Shared.Moves.{
  with_mem, IsFree, Copied, copy-Copied, moved_in, Published, store-Published,
}
use generic_server.Ring.Shared.States.{IsLaid, Grew}

module _ (r : Ring) (v : IsValid r) where
  -- A memcpy of the first bytes.
  pub record Laid (bytes : List ℕ) (len : ℕ) (mem : List ℕ) : Type 0 where
    pub laid : IsLaid (with_mem r mem) bytes len
    pub grew : Grew r (with_mem r mem) []

  pub lay :
      (bytes : List ℕ) (len : ℕ)
      → len ≤ length bytes
      → IsFree r len
      → (mem : List ℕ) × (copy_in r.in_pos bytes (pos len) r.mem ≡ some mem) × Laid bytes len mem
  lay bytes len h f =
      let c : List ℕ = take len bytes in
      let e : length c ≡ len = omega (arith, length-take len bytes) in
      let k : Copied r v c =
        copy-Copied r v c (record { in_block = omega (arith, f); in_gap = omega (arith, f) }) in
      (
        blit r.in_pos c r.mem,
        copy_in-some r.in_pos bytes len r.mem (omega (arith, f, v)) h,
        record {
          laid = (
            record { in_block = f.in_block; in_gap = f.in_gap },
            ap (λ n. slice r.in_pos n (blit r.in_pos c r.mem)) {x = len} {y = length c} (sym e)
                ∙ k.there,
          );
          grew = record {
            valid = k.valid;
            same_out = refl;
            same_size = refl;
            more = omega arith;
            grown = k.kept ∙ sym (append-nil (contents r));
          };
        },
      )

  -- A store of the write position.
  pub store :
      (bytes : List ℕ) (len : ℕ) → IsLaid r bytes len → Grew r (moved_in r v len) (take len bytes)
  store bytes len (f, e) =
      let p : Published r v len = store-Published r v len f in
      let g : contents (moved_in r v len) ≡ contents r ++ take len bytes =
        p.grown ∙ ap (λ (x : List ℕ). contents r ++ x) e in
      record {
        valid = p.valid;
        same_out = refl;
        same_size = refl;
        more = omega (
          arith,
          length-contents r v,
          length-contents (moved_in r v len) p.valid,
          ap (λ (x : List ℕ). length x) g,
          length-append (contents r) (take len bytes),
        );
        grown = g;
      }
