-- ===== src/Logger.antt =====
-- src/logger.c and src/logger.h: one line of the log. What `vsnprintf` makes of the format and its
-- arguments, the time, the process and whether the file opens are parameters.
pub mod Lines
use libwebsock.Prelude.{
  ℕ, zero, suc, ◌+◌, ◌-◌, ◌*◌, ◌/◌, ◌%◌, Bool, true, false, List, [], ◌∷◌, ◌++◌, Outcome, ok, ltb,
  ◌==◌, if◌then◌else◌, length, take, replicate, ◌>>=◌,
}
use libwebsock.Memory.{Allocator, byte_at, write, c_string}

-- `enum libwebsock_loglevel`
pub data LogLevel : Type 0 where
  error info debug : LogLevel

abbrev pub rank : LogLevel → ℕ
rank error = 0
rank info = 1
rank debug = 2

-- `libwebsock_logger`; the name is the array that holds it.
pub record Logger : Type 0 where
  pub filename : List ℕ
  pub level : LogLevel

-- `strloglevel`
abbrev pub strloglevel : LogLevel → List ℕ
strloglevel error = 69 ∷ 82 ∷ 82 ∷ 79 ∷ 82 ∷ []
strloglevel info = 73 ∷ 78 ∷ 70 ∷ 79 ∷ []
strloglevel debug = 68 ∷ 69 ∷ 66 ∷ 85 ∷ 71 ∷ []

abbrev pub log_buf_size : ℕ
log_buf_size = 2 * 1024

-- `%d` of a number with at most `digits` digits, `%6d` and `%-5s`.
unfoldable pub decimal : ℕ → ℕ → List ℕ
decimal zero n = []
decimal (suc digits) n =
    let higher = decimal digits (n / 10) in (if ltb n 10 then [] else higher) ++ (48 + n % 10) ∷ []

abbrev pub pad_left : ℕ → List ℕ → List ℕ
pad_left width text = replicate (width - length text) 32 ++ text

abbrev pub pad_right : ℕ → List ℕ → List ℕ
pad_right width text = text ++ replicate (width - length text) 32

-- What the system says at a call: `strTime`, `getpid()` and whether `fopen` gives a file.
pub record Moment : Type 0 where
  pub time : List ℕ
  pub pid : ℕ
  pub opens : Bool

pub data Destination : Type 0 where
  terminal : Destination
  file : List ℕ → Destination

-- "%s %6d %-5s %s: %s\n"
unfoldable pub line_of : Moment → LogLevel → List ℕ → List ℕ → List ℕ
line_of now level function text =
    now.time
    ++ 32
      ∷ (pad_left 6 (decimal 10 now.pid)
          ++ 32
            ∷ (pad_right 5 (strloglevel level) ++ 32 ∷ (function ++ 58 ∷ 32 ∷ (text ++ 10 ∷ []))))

-- `logger.filename[0] == '\0'`, and `fopen`.
unfoldable pub destination_of : Logger → Moment → Outcome Destination
destination_of logger now = do
  first ← byte_at logger.filename 0
  name ← c_string logger.filename
  ok (if first == 0 then terminal else if now.opens then file name else terminal)

-- The lines that a call writes; `text` is all that the format comes to.
unfoldable pub write_log :
    Allocator → Logger → LogLevel → List ℕ → List ℕ → Moment → Outcome (List (Destination × List ℕ))
write_log mem logger level function text now =
    if ltb (rank logger.level) (rank level) then ok [] else (do
      cbuffer ← write (mem.garbage (log_buf_size + 1)) 0 (take (log_buf_size - 1) text ++ 0 ∷ [])
      logged ← c_string cbuffer
      to ← destination_of logger now
      ok ((to, line_of now level function logged) ∷ []))
