-- ===== src/Logging/Macros.antt =====
-- The macros of tornado/Logging.h and `init_log` of tornado/Logging.cpp: what is logged at a level.
use simplesvr.Prelude.{
  ℕ, ◌≡◌, refl, Bool, not, List, [], ◌∷◌, Option, some, if◌then◌else◌, Bytes, codes, Bool-cases,
  inl, inr, leb,
}
use simplesvr.Prelude.Partial.{◌>>=◌, >>=-congr}
use simplesvr.Stream.Reading.{is_empty}
use simplesvr.Logging.{
  LogLevel, info, error, warn, debug, level_number, should_write, Flags, LogOpening, LogFile,
  create_logfile, write, write_string,
}

-- The name that a macro gives to its level.
unfoldable pub level_name : LogLevel → Bytes
level_name info = codes "INFO"
level_name error = codes "ERROR"
level_name warn = codes "WARN"
level_name debug = codes "DEBUG"

-- One use of a macro: its level, the time, the bytes that `fwrite` takes, and the text of the message. One of
-- the macros for strings has the whole line of `writeString` as its text.
pub record Entry : Type 0 where
  pub level : LogLevel
  pub log_time : ℕ
  pub taken : ℕ
  pub is_string : Bool
  pub message : Bytes

-- `head` is the text that `snprintf` makes of the name of a level, the time and the place in the code.
module _ (flags : Flags) (head : Bytes → ℕ → Bytes) where
  -- What a macro calls.
  unfoldable pub write_entry : Entry → LogFile → Option LogFile
  write_entry e l =
      if e.is_string
      then write_string flags e.log_time e.taken e.message l
      else write flags e.log_time e.taken (head (level_name e.level) e.log_time) e.message l

  -- `TORNADO_LOG_INFO` and the other macros, by the flag `loglevel`.
  unfoldable pub log_entry : ℕ → Entry → LogFile → Option LogFile
  log_entry loglevel e l = if should_write loglevel e.level then write_entry e l else some l

  unfoldable pub log_all : ℕ → List Entry → LogFile → Option LogFile
  log_all loglevel [] l = some l
  log_all loglevel (e ∷ es) l = do l' ← log_entry loglevel e l; log_all loglevel es l'

  unfoldable pub write_all : List Entry → LogFile → Option LogFile
  write_all [] l = some l
  write_all (e ∷ es) l = do l' ← write_entry e l; write_all es l'

  -- The entries whose level is not above the flag.
  abbrev pub at_level : ℕ → List Entry → List Entry
  at_level loglevel [] = []
  at_level loglevel (e ∷ es) =
      if leb (level_number e.level) loglevel then e ∷ at_level loglevel es else at_level loglevel es

  -- The macros write the entries whose level is not above the flag, in their order, and leave the file
  -- as it is for the others.
  pub log_all-at_level :
      (loglevel : ℕ) (es : List Entry) (l : LogFile)
      → log_all loglevel es l ≡ write_all (at_level loglevel es) l
  unfolding log_all write_all log_entry should_write
  log_all-at_level loglevel [] l = refl
  log_all-at_level loglevel (e ∷ es) l = elim (Bool-cases (leb (level_number e.level) loglevel)) [
    | inl w ↦ rw w (
        >>=-congr (write_entry e l) (log_all loglevel es) (write_all (at_level loglevel es))
          (log_all-at_level loglevel es))
    | inr w ↦ rw w (log_all-at_level loglevel es l)
  ]

-- `init_log`, by the flag `logfile`, and whether it succeeds.
unfoldable pub init_log : Flags → Bytes → LogOpening → LogFile → Bool × LogFile
init_log flags logfile o l = create_logfile flags (not (is_empty logfile)) o l
