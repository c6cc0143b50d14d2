-- ===== src/Files/Defs.antt =====
-- src/log/FileUtil.h, FileUtil.cpp, LogFile.h, LogFile.cpp and Appender.h. A file is known by its
-- name, a number that stands for the text that genFileName makes of the time and the process. A
-- file that was opened for a name has the number of the name plus one as its descriptor; 0 is the
-- standard input.
use generic_server.Prelude.{
  ℕ, suc, ◌+◌, ◌^◌, Option, none, some, List, if◌then◌else◌, ◌==◌, ltb, leb, Bool, length, take,
  ◌>>=◌,
}
use generic_server.Prelude.Memory.{blit}
use generic_server.Prelude.Int.{ℤ, pos, negsuc}

-- FileUtil: the file that is open (none: m_fd is -1), its name, and the bytes written to it.
pub record FileUtil : Type 0 where
  pub fd : Option ℕ
  pub name : ℕ
  pub written_bytes : ℕ
  pub max_size : ℕ

-- The constructor FileUtil(name, maxsize).
abbrev pub make : ℕ → ℕ → FileUtil
make name max_size = record { fd = some 0; name = name; written_bytes = 0; max_size = max_size }

-- `open` gives the descriptor of the file, which is known by its name.
abbrev pub open_file : FileUtil → FileUtil
open_file f = record f { fd = some (suc f.name) }

abbrev pub close_file : FileUtil → FileUtil
close_file f = record f { fd = none }

abbrev pub reach_max_size : FileUtil → Bool
reach_max_size f = leb f.max_size f.written_bytes

-- What stands behind each descriptor; a file that is opened for the first time is empty.
abbrev pub Disk : Type 0
Disk = ℕ → List ℕ

abbrev pub put_file : ℕ → List ℕ → Disk → Disk
put_file k b d = λ n. if n == k then b else d n

-- `::write` takes the first `took (length bytes)` bytes; a failure of it aborts, as does a write to
-- a file that is not open. The file was opened at its beginning, without O_TRUNC and O_APPEND, so
-- that the offset is the number of the bytes written, and what the file holds there is overwritten.
unfoldable pub write_out : (ℕ → Option ℕ) → List ℕ → FileUtil → Disk → Option (ℤ × FileUtil × Disk)
write_out took bytes f d = do
  fd ← f.fd
  n ← took (length bytes)
  some (
    pos n,
    record f { written_bytes = f.written_bytes + n },
    put_file fd (blit f.written_bytes (take n bytes) (d fd)) d,
  )

-- FileUtil::write; the difference is below 0 when the bytes exceed the maximum.
unfoldable pub write : (ℕ → Option ℕ) → List ℕ → FileUtil → Disk → Option (ℤ × FileUtil × Disk)
write took bytes f d =
    if ltb f.max_size (f.written_bytes + length bytes)
    then some (negsuc 0, f, d)
    else write_out took bytes f d

abbrev pub logfile_size : ℕ
logfile_size = 2 ^ 26

pub record LogFile : Type 0 where
  pub file : FileUtil
  pub disk : Disk

-- The constructor LogFile(), with the name that genFileName gives, on the files that there are.
abbrev pub init : ℕ → Disk → LogFile
init now d = record { file = open_file (make now logfile_size); disk = d }

-- The branch of LogFile::append for a write that was refused; `now` is the name that genFileName
-- gives, which is the same for calls within one second.
unfoldable pub rotate : (ℕ → Option ℕ) → ℕ → List ℕ → LogFile → Option LogFile
rotate took now bytes l = do
  (n, f, d) ← write took bytes (open_file (make now logfile_size)) l.disk
  some (record { file = f; disk = d })

abbrev pub settle : (ℕ → Option ℕ) → ℕ → List ℕ → LogFile → ℤ × FileUtil × Disk → Option LogFile
settle took now bytes l (pos n, f, d) = some (record l { file = f; disk = d })
settle took now bytes l (negsuc n, f, d) =
    if n == 0
    then rotate took now bytes (record l { file = close_file f; disk = d })
    else some (record l { file = f; disk = d })

-- LogFile::append: data that is too large is dropped.
unfoldable pub append : (ℕ → Option ℕ) → ℕ → List ℕ → LogFile → Option LogFile
append took now bytes l =
    if ltb logfile_size (length bytes)
    then some l
    else (do r ← write took bytes l.file l.disk; settle took now bytes l r)
