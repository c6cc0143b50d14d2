-- ===== src/Buffer/Tests.antt =====
-- src/Buffer.cpp at concrete inputs.
use generic_server.Prelude.{ℕ, ◌≡◌, refl, some, List, [], ◌∷◌, arith, length}
use generic_server.Prelude.Memory.{copy_in}
use generic_server.Prelude.Int.{ℤ, pos}
use generic_server.Buffer.Defs.{Buffer, make, max_size, Answer, failed}
use generic_server.Buffer.Valid.{IsValid}
use generic_server.Buffer.Stream.{
  Reads, Writes, Op, append_op, read_op, write_op, Accounts, run, run_keeps_stream,
}

-- Two bytes wait in a block of five.
abbrev half : Buffer
half = record { mem = 7 ∷ 8 ∷ 9 ∷ 0 ∷ 0 ∷ []; size = 5; wptr = 3; rptr = 1 }

half-IsValid : IsValid half
half-IsValid = omega arith

-- The socket delivers one byte, or takes one.
abbrev one_byte : ℕ → Answer
one_byte n = failed 11

one_byte-Reads : Reads one_byte
one_byte-Reads n bytes e = cc

abbrev takes_all : List ℕ → ℤ
takes_all bytes = pos (length bytes)

takes_all-Writes : Writes takes_all
takes_all-Writes bytes = omega arith

abbrev script : List Op
script =
    append_op (1 ∷ 2 ∷ 3 ∷ []) ∷ write_op takes_all ∷ read_op one_byte ∷ append_op (4 ∷ []) ∷ []

script_runs :
    run script half
    ≡ some (
      1 ∷ 2 ∷ 4 ∷ [],
      8 ∷ 9 ∷ 1 ∷ 2 ∷ [],
      record { mem = 4 ∷ 8 ∷ 9 ∷ 1 ∷ 2 ∷ []; size = 5; wptr = 1; rptr = 0 },
    )
unfolding run copy_in
script_runs = refl

oversized : (make (λ n. 0 ∷ []) max_size).mem ≡ []
oversized = refl

run_keeps_stream_example : Accounts half (run script half)
run_keeps_stream_example =
    run_keeps_stream script half (takes_all-Writes, (one_byte-Reads, tt)) half-IsValid
