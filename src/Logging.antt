-- ===== src/Logging.antt =====
-- tornado/Logging.h and tornado/Logging.cpp: the log file. The texts that `snprintf` would make of a
-- line are given; the clock, the flags of the command line and the results of the calls of the file
-- are given as well. `FLAGS_logbufsecs` and the times are not negative.
pub mod Lines
pub mod Flushing
pub mod Macros
mod Tests
use simplesvr.Prelude.{
  ℕ, ◌+◌, ◌-◌, ◌*◌, ◌%◌, ◌^◌, Bool, true, false, not, ◌||◌, List, [], ◌∷◌, ◌++◌, Option, none, some,
  ltb, leb, ◌==◌, if◌then◌else◌, length, take, Bytes,
}

-- `sizeof(buff)`.
abbrev pub buff_size : ℕ
buff_size = 1024 * 100

-- What `writeString` hands to `fwrite`, by the text of the line. `none` is a write past `buff`.
unfoldable pub string_line : Bytes → Option Bytes
string_line text = if ltb (length text) buff_size then some (text ++ 10 ∷ []) else none

-- What `write` hands to `fwrite`, by the texts of the head and of the message. `vsnprintf` gets one byte
-- less than there is room for, and ends what it stores by a null byte.
unfoldable pub message_line : Bytes → Bytes → Option Bytes
message_line head message =
    let room = buff_size - length head - 1 in
    if not (ltb (length head) buff_size)
    then none
    else if ltb (length message) room || (length message == 0)
    then some (head ++ message ++ 10 ∷ [])
    else if length message == room
    then some (head ++ take (room - 1) message ++ 0 ∷ 10 ∷ [])
    else none

-- `LOG_LEVEL`.
pub data LogLevel : Type 0 where
  info error warn debug : LogLevel

abbrev pub level_number : LogLevel → ℕ
level_number info = 1
level_number error = 2
level_number warn = 3
level_number debug = 4

-- `shouldWrite`, by the flag `loglevel`.
unfoldable pub should_write : ℕ → LogLevel → Bool
should_write loglevel level = leb (level_number level) loglevel

-- The calls of the file. `fwrites` has the bytes that `fwrite` says it has taken.
pub data FileCall : Type 0 where
  fopens fflushes fcloses : FileCall
  fwrites : Bytes → ℕ → FileCall

pub record Flags : Type 0 where
  pub force_flush : Bool
  pub logbufsecs : ℕ

-- What the system gives `createLogfile`: whether the first `open` succeeds, whether else the file
-- exists, whether the second `open` succeeds, and whether `fdopen` does.
pub record LogOpening : Type 0 where
  pub created : Bool
  pub exists : Bool
  pub reopened : Bool
  pub streamed : Bool

-- `LogFileObject`: whether `file_` is set, a `uint32_t` and a time in microseconds; and the calls of
-- the file, the newest first.
pub record LogFile : Type 0 where
  pub file : Bool
  pub bytes_since_flush : ℕ
  pub next_flush_time : ℕ
  pub calls : List FileCall

module _ (flags : Flags) where
  unfoldable pub flush : ℕ → LogFile → LogFile
  flush cur_time l = record l {
    bytes_since_flush = 0;
    next_flush_time = cur_time + flags.logbufsecs * 1000000;
    calls = fflushes ∷ l.calls;
  }

  unfoldable pub close : LogFile → LogFile
  unfolding flush
  close l =
      let l' = flush 0 l in
      let closed = if l.file then record l' { file = false; calls = fcloses ∷ l'.calls } else l in
      record closed { bytes_since_flush = 0; next_flush_time = 0 }

  -- `createLogfile`, for the standard output if no name is given.
  unfoldable pub create_logfile : Bool → LogOpening → LogFile → Bool × LogFile
  create_logfile named o l =
      let l' = close l in
      let usable = o.created || (if o.exists then o.reopened else false) in
      if named
      then if usable
        then if o.streamed
          then (true, record l' { file = true; calls = fopens ∷ l'.calls })
          else (false, l')
        else (false, l')
      else if o.streamed
      then (true, record l' { file = true; calls = fopens ∷ l'.calls })
      else (false, l')

  -- The end that `writeString` and `write` share: `fwrite`, by the bytes that it takes, and the flush.
  unfoldable pub write_line : ℕ → ℕ → Bytes → LogFile → LogFile
  write_line log_time taken line l =
      let l' = record l {
        bytes_since_flush = (l.bytes_since_flush + taken) % 2 ^ 32;
        calls = fwrites line taken ∷ l.calls;
      } in
      if flags.force_flush || (leb 1000000 l'.bytes_since_flush || leb l.next_flush_time log_time)
      then flush log_time l'
      else l'

  unfoldable pub write_string : ℕ → ℕ → Bytes → LogFile → Option LogFile
  write_string log_time taken text l = if not l.file then some l else elim (string_line text) [
    | none ↦ none
    | some line ↦ some (write_line log_time taken line l)
  ]

  unfoldable pub write : ℕ → ℕ → Bytes → Bytes → LogFile → Option LogFile
  write log_time taken head message l =
      if not l.file then some l else elim (message_line head message) [
        | none ↦ none
        | some line ↦ some (write_line log_time taken line l)
      ]
