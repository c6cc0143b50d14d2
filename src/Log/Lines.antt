-- ===== src/Log/Lines.antt =====
-- src/log/Log.cpp (Logger, SyncLogger): what the appender of a SyncLogger is given.
use generic_server.Prelude.{
  ℕ, ◌≤◌, ◌≡◌, refl, sym, ap, ap₂, ◌∙◌, Option, some, List, [], ◌∷◌, ◌++◌, length, take, min, ltb,
  if◌then◌else◌, ◌>>=◌, arith, append_assoc, append-nil, take_all, Bool-cases, inl, inr,
}
use generic_server.Prelude.Int.{ℤ}
use generic_server.Buffer
use generic_server.Buffer.{Buffer, to_string, data_size, remain_size, append_buffer, clear}
use generic_server.Buffer.Valid.{IsValid, append_buffer_lem}
use generic_server.Buffer.Stream.{length-to_string}
use generic_server.Log.Defs.{
  Item, Statement, Setting, SyncLogger, rank, format, ending, stream_size, log, log_append, output,
}
use generic_server.Log.Stream.{Holds, put_all-Keeps, text_of_all}

-- A statement's line: the text of its parts, cut at the size of a stream.
abbrev pub line : (ℤ → List ℕ) → Setting → Statement → List ℕ
line show g s = take stream_size (text_of_all show (format g s.level ++ (s.items ++ ending s)))

-- What the logger writes for a statement.
unfoldable pub written : (ℤ → List ℕ) → Setting → Statement → List ℕ
written show g s = if ltb (rank s.level) (rank g.log_level) then [] else line show g s

unfoldable pub log_all :
    (ℤ → List ℕ) → List ℕ → List (Setting × Statement) → SyncLogger → Option SyncLogger
log_all show block [] l = some l
log_all show block (s ∷ ss) l = do l' ← log show block s.0 s.1 l; log_all show block ss l'

unfoldable pub lines : (ℤ → List ℕ) → List (Setting × Statement) → List ℕ
lines show [] = []
lines show (s ∷ ss) = written show s.0 s.1 ++ lines show ss

-- The logger's buffer is empty and no smaller than a stream's.
pub record IsReady (l : SyncLogger) : Type 0 where
  pub valid : IsValid l.buffer
  pub empty : to_string l.buffer ≡ []
  pub at_start : l.buffer.wptr ≡ 0
  pub roomy : stream_size ≤ l.buffer.size

clear-IsReady :
    (b : Buffer) (out : List ℕ)
    → IsValid b
    → stream_size ≤ b.size
    → IsReady (record { buffer = clear b; out = out })
clear-IsReady b out v h = record {
  valid = record { backed = v.backed; ordered = omega arith; inside = omega arith };
  empty = refl;
  at_start = refl;
  roomy = h;
}

-- The whole text of a stream goes to the appender.
flush :
    {t : List ℕ} (b : Buffer) (l : SyncLogger)
    → IsReady l
    → Holds stream_size t b
    → (l' : SyncLogger) × ((log_append b l >>= λ m. some (output m)) ≡ some l')
      × IsReady l'
      × (l'.out ≡ l.out ++ to_string b)
flush b l r k =
    let (b', e, v, t, z) = append_buffer_lem b l.buffer r.valid k.valid in
    let size : length (to_string b) ≡ data_size b = length-to_string b k.valid in
    let n : min (data_size b) (remain_size l.buffer) ≡ data_size b =
      omega (arith, r.roomy, r.at_start, k.valid, k.sized) in
    let whole : to_string b' ≡ to_string b =
      t
      ∙ ap₂ (λ (x : List ℕ) (m : ℕ). x ++ take m (to_string b)) r.empty n
      ∙ take_all (data_size b) (to_string b) (omega (arith, size)) in
    (
      record { buffer = clear b'; out = l.out ++ to_string b' },
      rw e,
      clear-IsReady b' (l.out ++ to_string b') v (omega (arith, z, r.roomy)),
      ap (λ (x : List ℕ). l.out ++ x) whole,
    )

module _ (show : ℤ → List ℕ) (block : List ℕ) (sized : length block ≡ stream_size) where
  start_Holds : Holds stream_size [] (Buffer.init block stream_size)
  start_Holds = record {
    valid = record { backed = sized; ordered = omega arith; inside = omega arith };
    unread = refl;
    sized = refl;
    holds = refl;
  }

  pub log_lem :
      (g : Setting) (s : Statement) (l : SyncLogger)
      → IsReady l
      → (l' : SyncLogger) × (log show block g s l ≡ some l')
        × IsReady l'
        × (l'.out ≡ l.out ++ written show g s)
  unfolding log written
  log_lem g s l r = elim (Bool-cases (ltb (rank s.level) (rank g.log_level))) [
    | inl e ↦ (l, rw e, r, rw e (sym (append-nil l.out)))
    | inr e ↦
        let is : List Item = format g s.level ++ (s.items ++ ending s) in
        let (b, p, k) = put_all-Keeps show is start_Holds in
        let (l', q, u, w) = flush b l r k in
        (l', rw (e, p, q), u, rw e (w ∙ ap (λ (t : List ℕ). l.out ++ t) k.holds))
  ]

  -- A SyncLogger whose buffer is empty and no smaller than a stream of 256 bytes hands its
  -- appender, for a row of log statements, exactly the lines of those whose level is not below the
  -- level of the time, in order: nothing faults, nothing is held back, and each line is the
  -- beginning of its text that fits a stream.
  pub log_all-lines :
      (ss : List (Setting × Statement)) (l : SyncLogger)
      → IsReady l
      → (l' : SyncLogger) × (log_all show block ss l ≡ some l')
        × IsReady l'
        × (l'.out ≡ l.out ++ lines show ss)
  unfolding log_all lines
  log_all-lines [] l r = (l, refl, r, sym (append-nil l.out))
  log_all-lines (s ∷ ss) l r =
      let (m, e, u, w) = log_lem s.0 s.1 l r in
      let (l', f, x, y) = log_all-lines ss m u in
      (
        l',
        rw e f,
        x,
        y
            ∙ ap (λ (t : List ℕ). t ++ lines show ss) w
            ∙ append_assoc l.out (written show s.0 s.1) (lines show ss),
      )
