-- ===== src/Files/Rotate.antt =====
-- src/log/LogFile.cpp: no file grows beyond its size, and what a change of files keeps and loses.
use generic_server.Prelude.{
  ℕ, suc, ◌+◌, ◌≤◌, ◌<◌, ◌≡◌, ◌≢◌, refl, sym, ap, ap₂, ◌∙◌, Option, some, List, [], ◌∷◌, ◌++◌, ltb,
  true, false, ◌⊎◌, inl, inr, arith, length, take_all, append_assoc, drop, length-append,
}
use generic_server.Prelude.Memory.{blit}
use generic_server.Prelude.Int.{pos, negsuc}
use native.Mathlib.Decide.{dec_le}
use generic_server.Wheel.Loop.{All}
use generic_server.Files.Disk.{
  same, contents, contents-put_file, contents-last, blit_end, fits_after,
}
use generic_server.Files.Defs.{
  FileUtil, Disk, LogFile, logfile_size, write, write_out, rotate, append, make, open_file,
  close_file, put_file,
}

-- The bytes of a log: those of its old files, and those of the file that is open.
abbrev pub logged : List ℕ → LogFile → List ℕ
logged old l = contents l.disk (old ++ l.file.name ∷ [])

-- The disk takes all that it is offered.
abbrev pub Whole : (ℕ → Option ℕ) → Type 0
Whole took = (n : ℕ) → took n ≡ some n

-- The file is open and counts the bytes in it, no file is larger than it may be, and the old files
-- have other names.
pub record IsValid (old : List ℕ) (l : LogFile) : Type 0 where
  pub opened : l.file.fd ≡ some (suc l.file.name)
  pub limit : l.file.max_size ≡ logfile_size
  pub counted : length (l.disk (suc l.file.name)) ≡ l.file.written_bytes
  pub fits : (k : ℕ) → length (l.disk k) ≤ logfile_size
  pub apart : All (λ k. k ≢ l.file.name) old

-- The open file has room, or else the name that genFileName gives is that of no file so far.
abbrev pub HasPlace : ℕ → List ℕ → List ℕ → LogFile → Type 0
HasPlace now bytes old l =
    (l.file.written_bytes + length bytes ≤ logfile_size)
    ⊎ ((l.disk (suc now) ≡ []) × All (λ k. k ≢ now) (old ++ l.file.name ∷ []))

module _ (took : ℕ → Option ℕ) (whole : Whole took) (bytes : List ℕ) where
  write_lem :
      (f : FileUtil) (d : Disk) (k : ℕ)
      → f.fd ≡ some k
      → f.written_bytes + length bytes ≤ f.max_size
      → write took bytes f d
        ≡ some (
          pos (length bytes),
          record f { written_bytes = f.written_bytes + length bytes },
          put_file k (blit f.written_bytes bytes (d k)) d,
        )
  unfolding write write_out
  write_lem f d k o h =
      let e : ltb f.max_size (f.written_bytes + length bytes) ≡ false = ground arith in
      rw (e, o, whole (length bytes), take_all (length bytes) bytes (omega arith))

  -- The file has room: the data goes to its end.
  abbrev grown : LogFile → LogFile
  grown l =
      let f : FileUtil = l.file in
      record l {
        file = record f { written_bytes = f.written_bytes + length bytes };
        disk = put_file (suc f.name) (blit f.written_bytes bytes (l.disk (suc f.name))) l.disk;
      }

  module _ (old : List ℕ) (l : LogFile) (v : IsValid old l) where
    grown_file : (grown l).disk (suc l.file.name) ≡ l.disk (suc l.file.name) ++ bytes
    grown_file =
        rw (same l.file.name)
          (blit_end bytes (l.disk (suc l.file.name)) l.file.written_bytes v.counted)

    grown-IsValid : l.file.written_bytes + length bytes ≤ logfile_size → IsValid old (grown l)
    grown-IsValid h =
        let e : length (blit l.file.written_bytes bytes (l.disk (suc l.file.name)))
            ≡ l.file.written_bytes + length bytes =
          ap (λ (x : List ℕ). length x)
            (blit_end bytes (l.disk (suc l.file.name)) l.file.written_bytes v.counted)
          ∙ length-append (l.disk (suc l.file.name)) bytes
          ∙ ap (λ (n : ℕ). n + length bytes) v.counted in
        record {
          opened = v.opened;
          limit = v.limit;
          counted = rw (same l.file.name) e;
          fits =
              fits_after l.disk (suc l.file.name)
                (blit l.file.written_bytes bytes (l.disk (suc l.file.name))) v.fits
                (omega (arith, e));
          apart = v.apart;
        }

    logged-grown : logged old (grown l) ≡ logged old l ++ bytes
    logged-grown =
        contents-last (grown l).disk old l.file.name
        ∙ ap₂ (λ (x y : List ℕ). x ++ y)
            (contents-put_file l.disk l.file.name
              (blit l.file.written_bytes bytes (l.disk (suc l.file.name))) old v.apart)
            grown_file
        ∙ sym (append_assoc (contents l.disk old) (l.disk (suc l.file.name)) bytes)
        ∙ ap (λ (x : List ℕ). x ++ bytes) (sym (contents-last l.disk old l.file.name))

    -- The file has none: the data goes to the beginning of the file of the name.
    abbrev turned : ℕ → LogFile
    turned now = record {
      file = record {
        fd = some (suc now);
        name = now;
        written_bytes = 0 + length bytes;
        max_size = logfile_size;
      };
      disk = put_file (suc now) (blit 0 bytes (l.disk (suc now))) l.disk;
    }

    refused :
        ¬ (l.file.written_bytes + length bytes ≤ logfile_size)
        → write took bytes l.file l.disk ≡ some (negsuc 0, l.file, l.disk)
    unfolding write
    refused p =
        let g : ltb l.file.max_size (l.file.written_bytes + length bytes) ≡ true =
          ground (arith, v.limit, p) in
        rw g

    rotates :
        (now : ℕ)
        → length bytes ≤ logfile_size
        → rotate took now bytes (record l { file = close_file l.file }) ≡ some (turned now)
    unfolding rotate
    rotates now h =
        rw (write_lem (open_file (make now logfile_size)) l.disk (suc now) refl (omega arith))

    append-turned :
        (now : ℕ)
        → length bytes ≤ logfile_size
        → ¬ (l.file.written_bytes + length bytes ≤ logfile_size)
        → append took now bytes l ≡ some (turned now)
    unfolding append
    append-turned now h p =
        let e : ltb logfile_size (length bytes) ≡ false = ground arith in
        rw (e, refused p) (rotates now h)

    append-grown :
        (now : ℕ)
        → l.file.written_bytes + length bytes ≤ logfile_size
        → append took now bytes l ≡ some (grown l)
    unfolding append
    append-grown now p =
        let e : ltb logfile_size (length bytes) ≡ false = ground arith in
        rw (e, write_lem l.file l.disk (suc l.file.name) v.opened (rw v.limit p))

    module _ (now : ℕ) (empty : l.disk (suc now) ≡ []) where
      turned_file : blit 0 bytes (l.disk (suc now)) ≡ bytes
      turned_file = ap (blit 0 bytes) empty ∙ blit_end bytes [] 0 refl

      turned-IsValid :
          All (λ k. k ≢ now) (old ++ l.file.name ∷ [])
          → length bytes ≤ logfile_size
          → IsValid (old ++ l.file.name ∷ []) (turned now)
      turned-IsValid n h = record {
        opened = refl;
        limit = refl;
        counted = rw (same now) (ap (λ (x : List ℕ). length x) turned_file ∙ omega arith);
        fits =
            fits_after l.disk (suc now) (blit 0 bytes (l.disk (suc now))) v.fits (rw turned_file h);
        apart = n;
      }

      logged-turned :
          All (λ k. k ≢ now) (old ++ l.file.name ∷ [])
          → logged (old ++ l.file.name ∷ []) (turned now) ≡ logged old l ++ bytes
      logged-turned n =
          contents-last (turned now).disk (old ++ l.file.name ∷ []) now
          ∙ ap₂ (λ (x y : List ℕ). x ++ y)
              (contents-put_file l.disk now (blit 0 bytes (l.disk (suc now)))
                (old ++ l.file.name ∷ []) n)
              (rw (same now) turned_file)

  -- LogFile::append of data that is no larger than a file, to a disk that takes all it is offered,
  -- where the open file has room or the name that genFileName gives is that of no file so far: the
  -- data goes behind all that was logged before, over the old files and the open one; if the file
  -- changes, the one that was open is the last of the old ones. The log stays valid: each file
  -- holds at most logfile_size bytes, and the bytes in the open one are counted.
  pub append-IsValid :
      (now : ℕ) (old : List ℕ) (l : LogFile)
      → IsValid old l
      → length bytes ≤ logfile_size
      → HasPlace now bytes old l
      → (t : LogFile) × (next : List ℕ) × (append took now bytes l ≡ some t)
        × IsValid next t
        × (logged next t ≡ logged old l ++ bytes)
        × ((next ≡ old) ⊎ (next ≡ old ++ l.file.name ∷ []))
  append-IsValid now old l v h q =
      elim (dec_le (l.file.written_bytes + length bytes) logfile_size) [
        | yes p ↦ (
          grown l,
          old,
          append-grown old l v now p,
          grown-IsValid old l v p,
          logged-grown old l v,
          inl refl,
        )
        | no p ↦ elim q [
          | inl r ↦ absurd (p r)
          | inr r ↦ (
            turned old l v now,
            old ++ l.file.name ∷ [],
            append-turned old l v now h p,
            turned-IsValid old l v now r.0 r.1 h,
            logged-turned old l v now r.0 r.1,
            inr refl,
          )
        ]
      ]

  -- When data that fits into a file has no room in the open one, and genFileName gives the name of
  -- that file again, as it does within the same second, LogFile::append overwrites the beginning of
  -- the file with the data, however much it held, and counts the bytes of the data alone.
  pub append_overwrites :
      (old : List ℕ) (l : LogFile)
      → IsValid old l
      → length bytes ≤ logfile_size
      → logfile_size < l.file.written_bytes + length bytes
      → (t : LogFile) × (append took l.file.name bytes l ≡ some t)
        × (t.file.name ≡ l.file.name)
        × (t.file.written_bytes ≡ length bytes)
        × (t.disk (suc l.file.name) ≡ bytes ++ drop (length bytes) (l.disk (suc l.file.name)))
  unfolding blit
  append_overwrites old l v h p = (
    turned old l v l.file.name,
    append-turned old l v l.file.name h (λ q. omega arith),
    refl,
    omega arith,
    rw (same l.file.name) (
        ap (λ (n : ℕ). bytes ++ drop n (l.disk (suc l.file.name))) {x = 0 + length bytes}
          (omega arith)),
  )
