-- ===== src/Log/Tests.antt =====
-- src/log/Log.cpp at concrete inputs.
use generic_server.Prelude.{
  ℕ, ◌≡◌, refl, ◌+◌, false, some, List, [], ◌∷◌, replicate, length-replicate, arith,
}
use generic_server.Prelude.Int.{ℤ, pos, negsuc}
use generic_server.Buffer
use generic_server.Files
use generic_server.Files.{LogFile}
use generic_server.Files.Rotate
use generic_server.Log.Defs.{Setting, Statement, SyncLogger, info, debug, int, text, stream_size}
use generic_server.Log.Stream.{text_of_all}
use generic_server.Log.Lines.{IsReady, log_all, lines, written, log_all-lines}

-- Numbers are shown by one character.
abbrev show : ℤ → List ℕ
show (pos n) = (b'0' + n) ∷ []
show (negsuc n) = b'-' ∷ []

abbrev block : List ℕ
block = replicate stream_size 0

abbrev setting : Setting
setting = record { log_level = info; show_time_stamp = false; tid = pos 7; time = [] }

-- LOG_INFO << "hi" << 3 in line 9 of the file a, and a line that is below the level.
abbrev hello : Statement
hello = record {
  source = b'a' ∷ [];
  line = pos 9;
  level = info;
  items = text (b'h' ∷ b'i' ∷ []) ∷ int (pos 3) ∷ [];
}

abbrev script : List (Setting × Statement)
script = (setting, hello) ∷ (setting, record hello { level = debug }) ∷ []

abbrev logger : SyncLogger
logger = record { buffer = Buffer.init (replicate 1024 0) 1024; out = [] }

writes :
    lines show script
    ≡ b'7' ∷ b' ' ∷ b' ' ∷ b'I' ∷ b'N' ∷ b'F' ∷ b'O' ∷ b' ' ∷ b'h' ∷ b'i' ∷ b'3' ∷ b' ' ∷ b'-'
      ∷ b'a' ∷ b':' ∷ b'9' ∷ b'\n' ∷ []
unfolding lines written text_of_all
writes = refl

logger-IsReady : IsReady logger
logger-IsReady = record {
  valid = record {
    backed = length-replicate {A = ℕ} 1024 0;
    ordered = omega arith;
    inside = omega arith;
  };
  empty = refl;
  at_start = refl;
  roomy = omega arith;
}

log_all-lines_example :
    (l : SyncLogger) × (log_all show block script logger ≡ some l)
    × IsReady l
    × (l.out ≡ lines show script)
log_all-lines_example =
    log_all-lines show block (length-replicate {A = ℕ} stream_size 0) script logger logger-IsReady

abbrev file : LogFile
file = Files.init 0 (λ n. [])
