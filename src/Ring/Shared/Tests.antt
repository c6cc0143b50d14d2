-- ===== src/Ring/Shared/Tests.antt =====
-- src/log/RingBuffer.cpp: two interleaved calls at concrete inputs.
use generic_server.Prelude.{◌+◌, ◌≡◌, ◌≤◌, ◌⊎◌, refl, inl, some, [], ◌∷◌, ◌++◌, arith}
use generic_server.Prelude.Memory.{copy_in, copy_out}
use generic_server.Ring.Defs.{Ring, contents}
use generic_server.Ring.Valid.{IsValid}
use generic_server.Ring.Shared.Defs.{
  Writer, w_idle, w_rests, write_step, call_append, Reader, r_idle, r_flat, read_step, call_retrive,
  published, freed, System, appends, writes, retrieves, reads, Reach, start, next,
}
use generic_server.Ring.Shared.Streams.{quiet, Reach-accounts, Reach-returns}
use generic_server.Ring.Shared.States.{Wrote, Obtained}
use generic_server.Ring.Shared.Apart.{write_len, read_len, Reach-apart}

-- 8 and 9 wait, the write position at the end of the block.
abbrev late : Ring
late = record { mem = 5 ∷ 6 ∷ 8 ∷ 9 ∷ 0 ∷ []; size = 5; in_pos = 4; out_pos = 2 }

late-IsValid : IsValid late
late-IsValid = omega arith

-- Both calls have made a memcpy, and append has published its first byte.
abbrev halfway : System
halfway = record {
  ring = record { mem = 5 ∷ 6 ∷ 8 ∷ 9 ∷ 1 ∷ []; size = 5; in_pos = 0; out_pos = 2 };
  writer = w_rests (2 ∷ 3 ∷ []) 2 1;
  reader = r_flat (8 ∷ 9 ∷ []) 2;
  call = record { bytes = 1 ∷ 2 ∷ 3 ∷ []; before = []; room = 2 };
  ask = record { want = 4; before = []; shown = 2 };
  sent = 1 ∷ [];
  got = [];
}

-- Both have returned: retrive saw the write position from before the append.
abbrev both_returned : System
both_returned = record {
  ring = record { mem = 2 ∷ 6 ∷ 8 ∷ 9 ∷ 1 ∷ []; size = 5; in_pos = 1; out_pos = 4 };
  writer = w_idle 2;
  reader = r_idle (8 ∷ 9 ∷ []);
  call = record { bytes = 1 ∷ 2 ∷ 3 ∷ []; before = []; room = 2 };
  ask = record { want = 4; before = []; shown = 2 };
  sent = 1 ∷ 2 ∷ [];
  got = 8 ∷ 9 ∷ [];
}

late-halfway : Reach (quiet late) halfway
unfolding write_step read_step call_append call_retrive copy_in copy_out published freed
late-halfway =
    next
      (next
        (next
          (next (next start (appends 0 (1 ∷ 2 ∷ 3 ∷ []) refl (inl (omega arith))))
            (retrieves [] 4 refl))
          (writes _ _ refl))
        (reads _ _ refl))
      (writes _ _ refl)

late-both_returned : Reach (quiet late) both_returned
unfolding write_step read_step call_append call_retrive copy_in copy_out published freed
late-both_returned =
    next (next (next late-halfway (reads _ _ refl)) (writes _ _ refl)) (writes _ _ refl)

Reach-accounts_example :
    IsValid both_returned.ring
    × (contents late ++ both_returned.sent ≡ both_returned.got ++ contents both_returned.ring)
Reach-accounts_example = Reach-accounts late-IsValid late-both_returned

Reach-returns_example :
    Wrote both_returned.call both_returned.sent both_returned.ring both_returned.writer
    × Obtained both_returned.ask both_returned.got both_returned.ring both_returned.reader
Reach-returns_example = Reach-returns late-IsValid late-both_returned

Reach-apart_example :
    ((w : Writer × Ring) × (write_step halfway.writer halfway.ring ≡ some w))
    × ((d : Reader × Ring) × (read_step halfway.reader halfway.ring ≡ some d))
    × ((halfway.ring.in_pos + write_len halfway.writer halfway.ring ≤ halfway.ring.out_pos)
        ⊎ (halfway.ring.out_pos + read_len halfway.reader halfway.ring ≤ halfway.ring.in_pos))
Reach-apart_example = Reach-apart late-IsValid late-halfway
