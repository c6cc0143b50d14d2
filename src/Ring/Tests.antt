-- ===== src/Ring/Tests.antt =====
-- src/log/RingBuffer.cpp at concrete inputs.
use generic_server.Prelude.{◌≡◌, refl, inl, some, [], ◌∷◌, arith}
use generic_server.Prelude.Memory.{copy_in, copy_out}
use generic_server.Prelude.Int.{pos}
use generic_server.Ring.Defs.{Ring, init, append, append_round, retrive, retrive_round}
use generic_server.Ring.Valid.{IsValid}
use generic_server.Ring.Append.{Takes, append-Takes}
use generic_server.Ring.Wrap.{Dropped, append_loses_all}

-- 8 and 9 wait, the write position at the end of the block.
abbrev late : Ring
late = record { mem = 5 ∷ 6 ∷ 8 ∷ 9 ∷ 0 ∷ []; size = 5; in_pos = 4; out_pos = 2 }

abbrev fresh : Ring
fresh = init (0 ∷ 0 ∷ 0 ∷ []) 3

late-IsValid : IsValid late
late-IsValid = omega arith

fresh-IsValid : IsValid fresh
fresh-IsValid = omega arith

-- Round the end of the block, as far as the read position allows.
abbrev later : Ring
later = record { mem = 2 ∷ 6 ∷ 8 ∷ 9 ∷ 1 ∷ []; size = 5; in_pos = 1; out_pos = 2 }

late_appends : append (1 ∷ 2 ∷ 3 ∷ []) (pos 3) late ≡ some (2, later)
unfolding append append_round copy_in
late_appends = refl

later_gives : retrive (pos 4) later ≡ some (8 ∷ 9 ∷ 1 ∷ 2 ∷ [], record later { out_pos = 1 })
unfolding retrive retrive_round copy_out
later_gives = refl

append-Takes_example : Takes late (1 ∷ 2 ∷ 3 ∷ []) 3
append-Takes_example =
    append-Takes late (1 ∷ 2 ∷ 3 ∷ []) 3 late-IsValid (omega arith) (inl (omega arith))

append_loses_all_example : Dropped fresh (1 ∷ 2 ∷ 3 ∷ [])
append_loses_all_example = append_loses_all fresh (1 ∷ 2 ∷ 3 ∷ []) fresh-IsValid refl refl
