-- ===== src/Log.antt =====
-- src/linux/io.c: `FTPLog`, which prints a line to the terminal and to a log file.
pub mod Bounds
pub mod Mirror
use vs_ftp.Common.{ℕ, ◌+◌, ◌^◌, Option, none, some, List, [], ◌∷◌, ◌++◌, ltb, if◌then◌else◌, length}
use vs_ftp.Libc.{Bytes, codes, c_str}
use vs_ftp.Libc.Decimal.{decimal}
use vs_ftp.Libc.Format.{Arg, expand}

-- `struct tm`, as far as it is used; no member of it is negative from 1970 on.
pub record Tm : Type 0 where
  pub tm_year : ℕ
  pub tm_mon : ℕ
  pub tm_mday : ℕ
  pub tm_hour : ℕ
  pub tm_min : ℕ
  pub tm_sec : ℕ

-- What is put out, and what C leaves undefined.
pub data Output : Type 0 where
  printed : Bytes → Output
  opened : Bytes → Output
  written : ℕ → Bytes → Output
  flushed : ℕ → Output
  -- more bytes than the array of the given size holds
  overflow : ℕ → Output
  -- a format whose conversions do not fit its arguments
  bad_format : Bytes → Output
  -- a sum that an `int` cannot hold
  overflowed_int : Output
  -- output to a stream that is `NULL`
  no_stream : Output

-- `logFp`, and all that was put out, in order.
pub record Logger : Type 0 where
  pub log_fp : Option ℕ
  pub out : List Output

abbrev pub emit : Output → Logger → Logger
emit o l = record l { out = l.out ++ o ∷ [] }

-- What a call is given: its arguments, the time, and what `fopen` would return.
pub record LogCall : Type 0 where
  pub now : Tm
  pub fopen : Option ℕ
  pub file : Bytes
  pub line : ℕ
  pub format : Bytes
  pub args : List Arg

-- The conversion `%02d`.
unfoldable pub two_digits : ℕ → Bytes
two_digits n = if ltb n 10 then b'0' ∷ decimal n else decimal n

-- The sum `now.tm_year + 1900`, which is one of `int`s.
unfoldable pub add_year : Tm → Logger → Logger
add_year now l = if ltb (now.tm_year + 1900) (2 ^ 31) then l else emit overflowed_int l

-- What `sprintf` puts into `time_buf`, where the sum for the year is one.
unfoldable pub time_stamp : Tm → Bytes
unfolding two_digits
time_stamp now =
    decimal (now.tm_year + 1900)
    ++ (b'-' ∷ two_digits (now.tm_mon + 1))
    ++ (b'-' ∷ two_digits now.tm_mday)
    ++ (b'_' ∷ two_digits now.tm_hour)
    ++ (b':' ∷ two_digits now.tm_min)
    ++ (b':' ∷ two_digits now.tm_sec)

-- `LOG_FILE_PATH`
abbrev pub log_file_path : Bytes
log_file_path = codes "/tmp"

-- What `sprintf` puts into `buf`.
unfoldable pub log_path : Bytes → Bytes
log_path stamp = log_file_path ++ (b'/' ∷ stamp) ++ codes ".log"

-- What stands in front of each line.
unfoldable pub line_head : Bytes → Bytes → ℕ → Bytes
line_head stamp file line = stamp ++ (b' ' ∷ c_str file) ++ (b'[' ∷ decimal line) ++ codes "]: "

-- The size of `time_buf` and of `buf`.
abbrev pub array_size : ℕ
array_size = 100

-- `sprintf` of a text into such an array.
unfoldable pub store : Bytes → Logger → Logger
store text l = if ltb (length text) array_size then l else emit (overflow array_size) l

-- `vprintf`
unfoldable pub print_line : Bytes → List Arg → Logger → Logger
print_line format args l = elim (expand format args) [
  | none ↦ emit (bad_format format) l
  | some text ↦ emit (printed text) l
]

-- The log file is opened by the first call, and by later ones as long as that fails.
unfoldable pub open_log : Bytes → Option ℕ → Logger → Logger
unfolding store log_path
open_log stamp fopen l = elim l.log_fp [
  | some f ↦ l
  | none ↦ record (emit (opened (log_path stamp)) (store (log_path stamp) l)) { log_fp = fopen }
]

-- `vfprintf` to the log file.
unfoldable pub write_line : ℕ → Bytes → List Arg → Logger → Logger
write_line f format args l = elim (expand format args) [
  | none ↦ emit (bad_format format) l
  | some text ↦ emit (written f text) l
]

-- The part of `FTPLog` behind `fopen`.
unfoldable pub write_log : Option ℕ → Bytes → Bytes → List Arg → Logger → Logger
unfolding write_line
write_log none head format args l = emit no_stream l
write_log (some f) head format args l =
    emit (flushed f) (write_line f format args (emit (written f head) l))

-- `FTPLog`
unfoldable pub ftp_log : LogCall → Logger → Logger
unfolding time_stamp add_year line_head store print_line open_log write_log
ftp_log c l =
    let stamp = time_stamp c.now in
    let head = line_head stamp c.file c.line in
    let l' =
      open_log stamp c.fopen
        (print_line c.format c.args (emit (printed head) (store stamp (add_year c.now l)))) in
    write_log l'.log_fp head c.format c.args l'

-- The calls in order.
abbrev pub log_all : List LogCall → Logger → Logger
log_all [] l = l
log_all (c ∷ calls) l = log_all calls (ftp_log c l)
