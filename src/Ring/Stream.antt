-- ===== src/Ring/Stream.antt =====
-- src/log/RingBuffer.cpp: the ring under any sequence of whole calls, as a byte queue.
use generic_server.Prelude.{
  ℕ, ◌≤◌, ◌<◌, ◌≡◌, sym, ap, ◌∙◌, ◌⊎◌, some, List, [], ◌++◌, length, take, drop, min, arith,
  append-nil, append_assoc, take-append-drop,
}
use generic_server.Prelude.Int.{pos}
use generic_server.Ring.Defs.{Ring, contents, avail_size, append, retrive}
use generic_server.Ring.Valid.{IsValid}
use generic_server.Ring.Append.{append-Takes}
use generic_server.Ring.Retrive.{retrive-Gives}

-- The calls made on a ring since it was `s`: the bytes reported as written, the bytes handed out,
-- and the ring now. A write starts away from the read position 0, or fits.
data Calls (s : Ring) : List ℕ → List ℕ → Ring → Type 0 where
  start : Calls s [] [] s
  wrote :
      {i o : List ℕ} {r : Ring} (bytes : List ℕ) (k : ℕ) (r' : Ring)
      → Calls s i o r
      → (0 < r.out_pos) ⊎ (length bytes ≤ avail_size r)
      → append bytes (pos (length bytes)) r ≡ some (k, r')
      → Calls s (i ++ take k bytes) o r'
  read :
      {i o : List ℕ} {r : Ring} (n : ℕ) (got : List ℕ) (r' : Ring)
      → Calls s i o r
      → retrive (pos n) r ≡ some (got, r')
      → Calls s i (o ++ got) r'

-- Every state that such calls reach is valid, and what waited at first with what was reported as
-- written is what was handed out with what waits now, in order: nothing is lost, made up or moved.
stream_kept :
    {s r : Ring} {i o : List ℕ}
    → IsValid s
    → Calls s i o r
    → IsValid r × (contents s ++ i ≡ o ++ contents r)
stream_kept {s} v start = (v, append-nil (contents s))
stream_kept {s} v (wrote {i} {o} {r} bytes k r' c ok e) =
    let (u, f) = stream_kept v c in
    let (q, g, a) = append-Takes r bytes (length bytes) u (omega arith) ok in
    let sk : k ≡ min (length bytes) (avail_size r) = cc in
    let sr : r' ≡ q = cc in
    rw (sk, sr)
      (
        a.valid,
        sym (append_assoc (contents s) i _)
            ∙ ap (λ (l : List ℕ). l ++ take (min (length bytes) (avail_size r)) bytes) f
            ∙ append_assoc o (contents r) _
            ∙ ap (λ (l : List ℕ). o ++ l) (sym a.gained),
      )
stream_kept {s} v (read {i} {o} {r} n got r' c e) =
    let (u, f) = stream_kept v c in
    let (q, g, w, left, p, z) = retrive-Gives r n u in
    let sg : got ≡ take n (contents r) = cc in
    let sr : r' ≡ q = cc in
    rw (sg, sr)
      (
        w,
        f
            ∙ ap (λ (l : List ℕ). o ++ l) (sym (take-append-drop n (contents r)))
            ∙ sym (append_assoc o (take n (contents r)) (drop n (contents r)))
            ∙ ap (λ (l : List ℕ). (o ++ take n (contents r)) ++ l) (sym left),
      )
