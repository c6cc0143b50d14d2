-- ===== src/Files/Tests.antt =====
-- src/log/LogFile.cpp at concrete inputs.
use generic_server.Prelude.{
  ℕ, ◌≤◌, ◌≡◌, ◌⊎◌, inr, refl, some, List, [], ◌∷◌, ◌++◌, arith, length, replicate,
  length-replicate, drop, ◌==◌, true, false,
}
use native.Mathlib.Decide.{ℕ_discrete}
use generic_server.Files.Defs.{
  FileUtil, LogFile, append, logfile_size, make, open_file, put_file, Disk,
}
use generic_server.Files.Rotate.{IsValid, Whole, logged, append-IsValid, append_overwrites}

-- A file of the largest size.
unfoldable large : List ℕ
large = replicate logfile_size 7

length-large : length large ≡ logfile_size
unfolding large
length-large = length-replicate {A = ℕ} logfile_size 7

abbrev no_files : Disk
no_files = λ n. []

abbrev full : LogFile
full =
    let f : FileUtil = open_file (make 0 logfile_size) in
    record { file = record f { written_bytes = logfile_size }; disk = put_file 1 large no_files }

full_fits : (k : ℕ) → length (full.disk k) ≤ logfile_size
full_fits k = elim (ℕ_discrete k 1) [
  | yes e ↦ let g : (k == 1) ≡ true = ground (arith, e) in rw g (omega (arith, length-large))
  | no e ↦ let g : (k == 1) ≡ false = ground (arith, e) in rw g (omega arith)
]

full-IsValid : IsValid [] full
full-IsValid = record {
  opened = refl;
  limit = refl;
  counted = length-large;
  fits = full_fits;
  apart = tt;
}

whole : Whole some
whole n = refl

-- The next second.
append-IsValid_example :
    (t : LogFile) × (next : List ℕ) × (append some 1 (7 ∷ 8 ∷ []) full ≡ some t)
    × IsValid next t
    × (logged next t ≡ logged [] full ++ 7 ∷ 8 ∷ [])
    × ((next ≡ []) ⊎ (next ≡ 0 ∷ []))
append-IsValid_example =
    append-IsValid some whole (7 ∷ 8 ∷ []) 1 [] full full-IsValid (omega arith)
      (inr (refl, ((λ e. omega (arith, e)), tt)))

append_overwrites_example :
    (t : LogFile) × (append some 0 (7 ∷ 8 ∷ []) full ≡ some t)
    × (t.file.name ≡ 0)
    × (t.file.written_bytes ≡ 2)
    × (t.disk 1 ≡ (7 ∷ 8 ∷ []) ++ drop 2 large)
append_overwrites_example =
    append_overwrites some whole (7 ∷ 8 ∷ []) [] full full-IsValid (omega arith) (omega arith)
