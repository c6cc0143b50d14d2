-- ===== src/Files/Disk.antt =====
-- src/log/FileUtil.cpp (write): what files hold after a write.
use generic_server.Prelude.{
  ℕ, suc, ◌+◌, ◌≤◌, ◌≡◌, ◌≢◌, refl, sym, ap, ap₂, ◌∙◌, List, [], ◌∷◌, ◌++◌, true, false, ◌==◌,
  arith, length, take_all, drop_all, append_assoc, append-nil,
}
use generic_server.Prelude.Memory.{blit}
use native.Mathlib.Decide.{ℕ_discrete}
use generic_server.Wheel.Loop.{All}
use generic_server.Files.Defs.{Disk, logfile_size, put_file}

-- The bytes of files, one after another, by their names.
unfoldable pub contents : Disk → List ℕ → List ℕ
contents d [] = []
contents d (k ∷ ks) = d (suc k) ++ contents d ks

pub same : (n : ℕ) → (suc n == suc n) ≡ true
same n = ground arith

pub other : (m n : ℕ) → m ≢ n → (suc m == suc n) ≡ false
other m n h = ground (arith, h)

contents-append :
    (d : Disk) (ks js : List ℕ) → contents d (ks ++ js) ≡ contents d ks ++ contents d js
unfolding contents
contents-append d [] js = refl
contents-append d (k ∷ ks) js =
    ap (λ (l : List ℕ). d (suc k) ++ l) (contents-append d ks js)
    ∙ sym (append_assoc (d (suc k)) (contents d ks) (contents d js))

-- A write to another file.
pub contents-put_file :
    (d : Disk) (n : ℕ) (b : List ℕ) (ks : List ℕ)
    → All (λ k. k ≢ n) ks
    → contents (put_file (suc n) b d) ks ≡ contents d ks
unfolding contents
contents-put_file d n b [] h = refl
contents-put_file d n b (k ∷ ks) h =
    ap₂ (λ (x y : List ℕ). x ++ y) (rw (other k n h.0) refl) (contents-put_file d n b ks h.1)

pub contents-last :
    (d : Disk) (ks : List ℕ) (n : ℕ) → contents d (ks ++ n ∷ []) ≡ contents d ks ++ d (suc n)
unfolding contents
contents-last d ks n =
    contents-append d ks (n ∷ []) ∙ ap (λ (l : List ℕ). contents d ks ++ l) (append-nil (d (suc n)))

pub blit_end : (b old : List ℕ) (n : ℕ) → length old ≡ n → blit n b old ≡ old ++ b
unfolding blit
blit_end b old n h =
    ap₂ (λ (x y : List ℕ). x ++ (b ++ y)) (take_all n old (omega arith))
      (drop_all (n + length b) old (omega arith))
    ∙ ap (λ (x : List ℕ). old ++ x) (append-nil b)

-- No file is larger than it may be after one was written.
pub fits_after :
    (d : Disk) (n : ℕ) (b : List ℕ)
    → ((k : ℕ) → length (d k) ≤ logfile_size)
    → length b ≤ logfile_size
    → (k : ℕ) → length (put_file n b d k) ≤ logfile_size
fits_after d n b f h k = elim (ℕ_discrete k n) [
  | yes e ↦ let g : (k == n) ≡ true = ground (arith, e) in rw g h
  | no e ↦ let g : (k == n) ≡ false = ground (arith, e) in rw g (f k)
]
