-- ===== src/Async/Tests.antt =====
-- src/log/Log.cpp, the class AsyncLogger, at concrete inputs.
use generic_server.Prelude.{
  ℕ, ◌≡◌, refl, true, false, some, List, [], ◌∷◌, replicate, length-replicate, arith,
}
use generic_server.Ring.{Ring, contents}
use generic_server.Ring.Valid.{IsValid}
use generic_server.Async.Defs.{BufferMap, Writer, ring_size, append, find, store, turn}
use generic_server.Async.Turns.{Turned, nothing, also, held, view, emptied, turn-Turned}
use generic_server.Async.Through.{
  Event, logs, turns, Fits, fits_end, fits_logs, fits_turns, said, run, run-said,
}
use generic_server.Async.Resend.{append_repeats}

abbrev block : List ℕ
block = replicate ring_size 0

-- Two threads log, then the logger takes a turn, then one logs again.
abbrev script : List Event
script =
    logs 7 (b'a' ∷ [])
    ∷ logs 3 (b'b' ∷ b'c' ∷ [])
    ∷ logs 7 (b'd' ∷ [])
    ∷ turns true
    ∷ logs 7 (b'e' ∷ [])
    ∷ []

abbrev writer : Writer
writer = record { waiting = []; out = [] }

said_in_order : said script [] ≡ b'b' ∷ b'c' ∷ b'a' ∷ b'd' ∷ b'e' ∷ []
unfolding said store find held emptied
said_in_order = refl

script-Fits : Fits script []
unfolding store find emptied
script-Fits = fits_logs (omega arith) (
    fits_logs (omega arith)
      (fits_logs (omega arith) (fits_turns (fits_logs (omega arith) (fits_end _)))))

run-said_example :
    (m : BufferMap) × (w : Writer) × (run block script [] writer ≡ some (m, w))
    × (w.out ≡ said script [])
unfolding view
run-said_example =
    run-said block (length-replicate {A = ℕ} ring_size 0) script writer nothing (omega arith)
      script-Fits

-- The ring of thread 7, in which one byte waits.
abbrev ring : Ring
ring = record { mem = block; size = ring_size; in_pos = 1; out_pos = 0 }

ring-IsValid : IsValid ring
ring-IsValid = record {
  backed = length-replicate {A = ℕ} ring_size 0;
  in_range = omega arith;
  out_range = omega arith;
}

turn-Turned_example :
    (m : BufferMap) × (w : Writer) × (turn false ((7, ring) ∷ []) writer ≡ some (m, w))
    × Turned ((7, ring) ∷ []) writer m w
turn-Turned_example = turn-Turned false writer (also 7 ring-IsValid refl nothing) (omega arith)

-- 8 and 9 wait in a ring of 5 bytes, with room for 2.
abbrev small : Ring
small = record { mem = 5 ∷ 6 ∷ 8 ∷ 9 ∷ 0 ∷ []; size = 5; in_pos = 4; out_pos = 2 }

append_repeats_example :
    (r : Ring) × (append (5 ∷ []) (1 ∷ 2 ∷ 3 ∷ []) small ≡ some (8 ∷ 9 ∷ 1 ∷ 2 ∷ [], r, 0))
    × IsValid r
    × (contents r ≡ 1 ∷ 2 ∷ 3 ∷ [])
append_repeats_example =
    append_repeats small (1 ∷ 2 ∷ 3 ∷ []) 5 (omega arith) (omega arith) (omega arith) (omega arith)
      (omega arith)
