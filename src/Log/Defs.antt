-- ===== src/Log/Defs.antt =====
-- src/log/LogStream.cpp, Log.h and Log.cpp: LogStream, Logger and SyncLogger. `show` is what
-- std::to_string gives for a number; the text of a real number is given as it is.
use generic_server.Prelude.{
  ℕ, Bool, Option, none, some, List, [], ◌∷◌, ◌++◌, length, min, ltb, if◌then◌else◌, ◌>>=◌,
}
use generic_server.Prelude.Int.{ℤ, pos}
use generic_server.Files
use generic_server.Files.{LogFile}
use generic_server.Buffer
use generic_server.Buffer.{Buffer, append, append_char, append_buffer, clear, to_string}

-- What `<<` is called with.
pub data Item : Type 0 where
  char : ℕ → Item
  c_str : Option (List ℕ) → Item
  simple : List ℕ → Item
  text : List ℕ → Item
  int : ℤ → Item
  real : List ℕ → Item

abbrev pub max_len : ℕ
max_len = 1024

-- `strnlen(str_, MAX_LEN)`, for the characters in front of the final 0.
abbrev pub strnlen : List ℕ → ℕ
strnlen s = min (length s) max_len

abbrev pub put_text : List ℕ → Buffer → Option Buffer
put_text s b = do (n, b') ← append s (pos (length s)) b; some b'

-- The functions `LogStream::operator<<`.
unfoldable pub put : (ℤ → List ℕ) → Item → Buffer → Option Buffer
put show (char c) b = do (n, b') ← append_char c b; some b'
put show (c_str none) b = some b
put show (c_str (some s)) b = do (n, b') ← append s (pos (strnlen s)) b; some b'
put show (simple s) b = put_text s b
put show (text s) b = put_text s b
put show (int i) b = put_text (show i) b
put show (real s) b = put_text s b

unfoldable pub put_all : (ℤ → List ℕ) → List Item → Buffer → Option Buffer
put_all show [] b = some b
put_all show (i ∷ is) b = do b' ← put show i b; put_all show is b'

abbrev pub stream_size : ℕ
stream_size = 256

pub data LogLevel : Type 0 where
  trace : LogLevel
  debug : LogLevel
  info : LogLevel
  warn : LogLevel
  error : LogLevel
  fatal : LogLevel

abbrev pub rank : LogLevel → ℕ
rank trace = 0
rank debug = 1
rank info = 2
rank warn = 3
rank error = 4
rank fatal = 5

-- `s_logLevelName`.
abbrev pub level_name : LogLevel → List ℕ
level_name trace = b'T' ∷ b'R' ∷ b'A' ∷ b'C' ∷ b'E' ∷ b' ' ∷ []
level_name debug = b'D' ∷ b'E' ∷ b'B' ∷ b'U' ∷ b'G' ∷ b' ' ∷ []
level_name info = b' ' ∷ b'I' ∷ b'N' ∷ b'F' ∷ b'O' ∷ b' ' ∷ []
level_name warn = b' ' ∷ b'W' ∷ b'A' ∷ b'R' ∷ b'N' ∷ b' ' ∷ []
level_name error = b'E' ∷ b'R' ∷ b'R' ∷ b'O' ∷ b'R' ∷ b' ' ∷ []
level_name fatal = b'F' ∷ b'A' ∷ b'T' ∷ b'A' ∷ b'L' ∷ b' ' ∷ []

-- The static members of Logger, and what it asks the system for: the number of the thread and the
-- text of the time.
pub record Setting : Type 0 where
  pub log_level : LogLevel
  pub show_time_stamp : Bool
  pub tid : ℤ
  pub time : List ℕ

-- A use of a LOG macro: where it stands, its level, and what is put into the stream.
pub record Statement : Type 0 where
  pub source : List ℕ
  pub line : ℤ
  pub level : LogLevel
  pub items : List Item

-- Logger::format.
abbrev pub format : Setting → LogLevel → List Item
format g level =
    simple (if g.show_time_stamp then g.time ++ b' ' ∷ [] else [])
    ∷ int g.tid
    ∷ c_str (some (b' ' ∷ []))
    ∷ simple (level_name level)
    ∷ []

-- What the destructor adds.
abbrev pub ending : Statement → List Item
ending s =
    c_str (some (b' ' ∷ b'-' ∷ []))
    ∷ c_str (some s.source)
    ∷ c_str (some (b':' ∷ []))
    ∷ int s.line
    ∷ c_str (some (b'\n' ∷ []))
    ∷ []

-- SyncLogger, with what its appender was given.
pub record SyncLogger : Type 0 where
  pub buffer : Buffer
  pub out : List ℕ

-- append(read_ptr(), data_size()) of the stream's buffer.
abbrev pub log_append : Buffer → SyncLogger → Option SyncLogger
log_append line l = do (n, b) ← append_buffer line l.buffer; some (record l { buffer = b })

abbrev pub output : SyncLogger → SyncLogger
output l = record { buffer = clear l.buffer; out = l.out ++ to_string l.buffer }

-- The statement: the test of the macro, the constructor of Logger, the stream, the destructor. The
-- stream's block holds anything at first.
unfoldable pub log : (ℤ → List ℕ) → List ℕ → Setting → Statement → SyncLogger → Option SyncLogger
log show block g s l = if ltb (rank s.level) (rank g.log_level) then some l else (do
  b ← put_all show (format g s.level ++ (s.items ++ ending s)) (Buffer.init block stream_size)
  l' ← log_append b l
  some (output l'))

-- The statement where the appender of the SyncLogger is a FileAppender, which hands on to
-- LogFile::append what one call of output gives it; `now` is the name that genFileName would give.
unfoldable pub log_to_file :
    (ℤ → List ℕ)
    → List ℕ
    → (ℕ → Option ℕ)
    → ℕ
    → Setting
    → Statement
    → SyncLogger
    → LogFile
    → Option (SyncLogger × LogFile)
log_to_file show block took now g s l f =
    if ltb (rank s.level) (rank g.log_level) then some (l, f) else (do
      l' ← log show block g s (record l { out = [] })
      f' ← Files.append took now l'.out f
      some (l', f'))
