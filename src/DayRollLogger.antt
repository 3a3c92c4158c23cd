-- ===== src/DayRollLogger.antt =====
-- framework/day_roll_logger.h and framework/day_roll_logger.cpp: lines that are collected in memory
-- and written to a file of the day. `bytes` are those in m_buf, so that m_buf->pos is their number,
-- and `out` those that write has taken, of all files in turn. What printf makes of a line is an
-- argument, and a level is not negative. The operations other than init and fini are those of a
-- logger whose buffer is there: without one the code reads through NULL.
pub mod Lines
pub mod Ready
use frame_work.Prelude.{
  ℕ, zero, suc, ◌+◌, ◌-◌, ◌*◌, Bool, true, false, ◌||◌, List, [], ◌∷◌, ◌++◌, Option, none, some, ℤ,
  pos, negsuc, ok, minus_one, minus_two, minus_three, ltb, ◌==◌, if◌then◌else◌, length, take, drop,
}

-- `fd` is none where m_fd is -1; `has_buf` says that m_buf is not NULL, and `null_prefix` that the
-- prefix is /dev/null. `closed` lists the calls of close, newest first.
pub record Logger : Type 0 where
  pub fd : Option ℕ
  pub filedate : ℕ
  pub level : ℕ
  pub null_prefix : Bool
  pub has_buf : Bool
  pub size : ℕ
  pub bytes : List ℕ
  pub out : List ℕ
  pub closed : List ℕ

-- What write answers for the bytes of the buffer: how many it took, or an error.
pub data Written : Type 0 where
  took : ℕ → Written
  failed : Written

abbrev pub line_limit : ℕ
line_limit = 4096

abbrev pub min_iobuf_size : ℕ
min_iobuf_size = line_limit

abbrev pub max_iobuf_size : ℕ
max_iobuf_size = line_limit * 1000

-- A part of the bytes stays. After an error memmove reads in front of the buffer, which is none.
abbrev pub flushed : Logger → Written → Option (ℤ × Logger)
flushed l (took n) =
    if n == length l.bytes
    then some (ok, record l { bytes = []; out = l.out ++ l.bytes })
    else some (ok, record l { bytes = drop n l.bytes; out = l.out ++ take n l.bytes })
flushed l failed = none

abbrev pub flush_open : Logger → (ℕ → Written) → Option ℕ → Option (ℤ × Logger)
flush_open l kernel none = some (minus_one, l)
flush_open l kernel (some fd) =
    if ltb (length l.bytes) 1 then some (minus_one, l) else flushed l (kernel (length l.bytes))

unfoldable pub flush : Logger → (ℕ → Written) → Option (ℤ × Logger)
flush l kernel = flush_open l kernel l.fd

-- What localtime_r makes of the time, as (month << 8) | day, what open answers, and what write does.
pub record World : Type 0 where
  pub today : Option ℕ
  pub opened : Option ℕ
  pub kernel : ℕ → Written

abbrev pub rolled : ℕ → ℕ → Option ℕ → Option (ℤ × Logger) → Option (ℤ × Logger)
rolled fd date old none = none
rolled fd date none (some (s, l)) = some (ok, record l { fd = some fd; filedate = date })
rolled fd date (some old) (some (s, l)) =
    some (ok, record l { fd = some fd; filedate = date; closed = old ∷ l.closed })

-- flush and close are called where there is a file; without one flush does nothing.
abbrev pub roll : Logger → (ℕ → Written) → ℕ → Option ℕ → Option (ℤ × Logger)
roll l kernel date none = some (minus_one, l)
roll l kernel date (some fd) = rolled fd date l.fd (flush l kernel)

abbrev pub prepare_on : World → Logger → Option ℕ → Option (ℤ × Logger)
prepare_on w l none = some (minus_one, l)
prepare_on w l (some date) =
    if (l.filedate == date) || l.null_prefix then some (ok, l) else roll l w.kernel date w.opened

unfoldable pub prepare : World → Logger → Option (ℤ × Logger)
unfolding flush
prepare w l = prepare_on w l w.today

-- LOG_LEVEL_ERROR is 1 and LOG_LEVEL_DEBUG 4.
abbrev pub clamp_level : ℤ → ℕ
clamp_level (negsuc n) = 1
clamp_level (pos n) = if ltb n 1 then 1 else (if ltb 4 n then 4 else n)

abbrev pub clamp_size : ℤ → ℕ
clamp_size (negsuc n) = min_iobuf_size
clamp_size (pos n) =
    if ltb n min_iobuf_size
    then min_iobuf_size
    else (if ltb max_iobuf_size n then max_iobuf_size else n)

-- init with a prefix that is not NULL; `enough` says that realloc gives the memory, of which the
-- two ints of memory_buffer take eight bytes.
unfoldable pub init : World → Bool → Logger → Bool → ℤ → ℤ → Option (ℤ × Logger)
unfolding prepare
init w enough l null_prefix log_level buf_size =
    let l' = record l { level = clamp_level log_level; null_prefix = null_prefix } in
    if enough
    then prepare w (record l' { has_buf = true; size = clamp_size buf_size - 8; bytes = [] })
    else some (minus_two, record l' { has_buf = false })

abbrev pub close_file : (ℕ → Written) → Logger → Option ℕ → Option Logger
close_file kernel l none = some l
close_file kernel l (some fd) = closed_after fd (flush_open l kernel (some fd))
  where
    closed_after : ℕ → Option (ℤ × Logger) → Option Logger
    closed_after fd none = none
    closed_after fd (some (s, l)) = some (record l {
      fd = none;
      level = 0;
      filedate = 0;
      null_prefix = false;
      closed = fd ∷ l.closed;
    })

abbrev pub freed : Option Logger → Option Logger
freed none = none
freed (some l) = some (record l { has_buf = false; size = 0; bytes = [] })

unfoldable pub fini : (ℕ → Written) → Logger → Option Logger
fini kernel l = freed (close_file kernel l l.fd)

-- *(buf_data - 1) != '\n'; the text before is not empty.
abbrev pub ends_line : List ℕ → Bool
ends_line [] = false
ends_line (c ∷ []) = c == 10
ends_line (c ∷ d ∷ cs) = ends_line (d ∷ cs)

abbrev pub with_newline : List ℕ → List ℕ
with_newline text = if ends_line text then text else text ++ (10 ∷ [])

-- The line as it is kept, given what printf makes of the format.
abbrev pub line_of : List ℕ → List ℕ
line_of formatted = with_newline (take (line_limit - 64) formatted)

abbrev pub status_of : Option (ℤ × Logger) → Option (ℤ × Logger)
status_of none = none
status_of (some (pos zero, l)) = some (ok, l)
status_of (some (_, l)) = some (minus_three, l)

abbrev pub keep_line : (ℕ → Written) → List ℕ → Logger → Option (ℤ × Logger)
keep_line kernel line l =
    let l' = record l { bytes = l.bytes ++ line } in
    if ltb (l.size - length l'.bytes) line_limit then status_of (flush l' kernel) else some (ok, l')

-- A write of so many bytes behind those of the buffer ends outside m_buf.
abbrev pub overruns : Logger → ℕ → Bool
overruns l n = ltb l.size (length l.bytes + n)

-- `raw` bytes are written where the line is made, and a NUL stands behind the line.
abbrev pub prepared : (ℕ → Written) → ℕ → List ℕ → Option (ℤ × Logger) → Option (ℤ × Logger)
prepared kernel raw line none = none
prepared kernel raw line (some (pos zero, l)) =
    if overruns l raw || overruns l (length line + 1) then none else keep_line kernel line l
prepared kernel raw line (some (_, l)) = some (minus_one, l)

-- How many bytes snprintf writes for a text of this length, with its NUL, up to a limit.
abbrev pub at_most : ℕ → ℕ → ℕ
at_most limit n = if ltb n limit then n + 1 else limit

abbrev pub is_closed : Option ℕ → Bool
is_closed none = true
is_closed (some fd) = false

-- write_string, none where it writes outside m_buf; `formatted` is not an error of snprintf.
unfoldable pub write_string : World → Logger → ℕ → List ℕ → Option (ℤ × Logger)
unfolding prepare flush
write_string w l ll formatted =
    if is_closed l.fd || (ltb l.level ll || ltb ll 1)
    then some (minus_one, l)
    else prepared w.kernel (at_most line_limit (length formatted)) (line_of formatted) (prepare w l)

-- vsnprintf writes one byte less than its limit, and a NUL, which a length at the limit counts.
abbrev pub cut : List ℕ → List ℕ
cut formatted =
    if ltb (length formatted) (line_limit - 64)
    then formatted
    else take (line_limit - 65) formatted ++ (0 ∷ [])

-- write_format: the head of the line is put in front, and only the rest is cut.
unfoldable pub write_format : World → Logger → ℕ → List ℕ → List ℕ → Option (ℤ × Logger)
unfolding prepare flush
write_format w l ll head formatted =
    if is_closed l.fd || (ltb l.level ll || ltb ll 1)
    then some (minus_one, l)
    else prepared w.kernel (length head + at_most (line_limit - 64) (length formatted))
        (with_newline (head ++ cut formatted)) (prepare w l)
