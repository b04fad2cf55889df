-- ===== src/Logging/Flushing.antt =====
-- What tornado/Logging.cpp has written and not yet flushed.
use simplesvr.Prelude.{
  ℕ, ◌+◌, ◌*◌, ◌≡◌, ◌≤◌, ◌<◌, ◌⊎◌, refl, Bool, true, false, List, [], ◌∷◌, ◌++◌, Option, some,
  arith, length, Bytes, inl, inr, Bool-cases, ◌∙◌, sym,
}
use simplesvr.Prelude.Partial.{◌>>=◌, All}
use simplesvr.Logging.Lines.{message_line-some}
use simplesvr.Logging.{
  string_line, FileCall, fopens, fflushes, fcloses, fwrites, Flags, LogOpening, LogFile, flush,
  close, create_logfile, write_line, write_string, write,
}

-- The bytes written since the last flush.
abbrev pub unflushed : List FileCall → ℕ
unflushed [] = 0
unflushed (fwrites line taken ∷ calls) = taken + unflushed calls
unflushed (fopens ∷ calls) = 0
unflushed (fflushes ∷ calls) = 0
unflushed (fcloses ∷ calls) = 0

-- `bytes_since_flush_` counts them and stays below the limit; without a file there are none.
pub record IsAccounted (l : LogFile) : Type 0 where
  pub counted : l.bytes_since_flush ≡ unflushed l.calls
  pub bounded : l.bytes_since_flush < 1000000
  pub shut : l.file ≡ false → unflushed l.calls ≡ 0

-- What a program does with the log file. Each write comes with the time and the bytes that `fwrite`
-- takes.
pub data LogOp : Type 0 where
  writes_string : ℕ → ℕ → Bytes → LogOp
  writes : ℕ → ℕ → Bytes → Bytes → LogOp
  creates : Bool → LogOpening → LogOp
  closes : LogOp

-- A line that the buffer can hold, and no more bytes taken than it has.
abbrev pub Fits : LogOp → Type 0
Fits (writes_string log_time taken text) = (length text < 102400) × (taken ≤ length text + 1)
Fits (writes log_time taken head message) =
    (length head + length message < 102400) × (taken ≤ length head + length message + 1)
Fits (creates named o) = Unit
Fits closes = Unit

abbrev pub new_log : LogFile
new_log = record { file = false; bytes_since_flush = 0; next_flush_time = 0; calls = [] }

pub new_log-IsAccounted : IsAccounted new_log
new_log-IsAccounted = record { counted = refl; bounded = omega arith; shut = λ e. refl }

module _ (flags : Flags) where
  unfoldable pub run_op : LogOp → LogFile → Option LogFile
  run_op (writes_string log_time taken text) l = write_string flags log_time taken text l
  run_op (writes log_time taken head message) l = write flags log_time taken head message l
  run_op (creates named o) l = some (create_logfile flags named o l).1
  run_op closes l = some (close flags l)

  unfoldable pub run_ops : List LogOp → LogFile → Option LogFile
  run_ops [] l = some l
  run_ops (op ∷ ops) l = do l' ← run_op op l; run_ops ops l'

  close-lem :
      (l : LogFile)
      → IsAccounted l
      → ((close flags l).bytes_since_flush ≡ 0) × (unflushed (close flags l).calls ≡ 0)
  unfolding close flush
  close-lem l v = ground (arith, v.shut)

  pub close-IsAccounted : (l : LogFile) → IsAccounted l → IsAccounted (close flags l)
  close-IsAccounted l v =
      let (none_since, none_left) = close-lem l v in
      record {
        counted = none_since ∙ sym none_left;
        bounded = omega (arith, none_since);
        shut = λ e. none_left;
      }

  create_logfile-IsAccounted :
      (named : Bool) (o : LogOpening) (l : LogFile)
      → IsAccounted l
      → IsAccounted (create_logfile flags named o l).1
  unfolding create_logfile
  create_logfile-IsAccounted named o l v =
      let w = close-IsAccounted l v in
      let zero_left = (close-lem l v).0 in
      let opened : IsAccounted
          (record (close flags l) { file = true; calls = fopens ∷ (close flags l).calls }) =
        record { counted = zero_left; bounded = w.bounded; shut = λ e. refl } in
      ground (arith, w, opened)

  write_line-IsAccounted :
      (log_time taken : ℕ) (line : Bytes) (l : LogFile)
      → taken ≤ 102402
      → l.file ≡ true
      → IsAccounted l
      → IsAccounted (write_line flags log_time taken line l)
  unfolding write_line flush
  write_line-IsAccounted log_time taken line l small opened v = ground (arith, v.counted, v.bounded)

  -- An operation that goes well.
  abbrev Runs : LogOp → LogFile → Type 0
  Runs op l = (l' : LogFile) × (run_op op l ≡ some l') × IsAccounted l'

  write_string-Runs :
      (log_time taken : ℕ) (text : Bytes) (l : LogFile)
      → Fits (writes_string log_time taken text)
      → IsAccounted l
      → Runs (writes_string log_time taken text) l
  unfolding run_op write_string string_line
  write_string-Runs log_time taken text l fits v = elim (Bool-cases l.file) [
    | inl opened ↦ (
      write_line flags log_time taken (text ++ 10 ∷ []) l,
      ground arith,
      write_line-IsAccounted log_time taken (text ++ 10 ∷ []) l (omega arith) opened v,
    )
    | inr shut ↦ (l, ground arith, v)
  ]

  write-Runs :
      (log_time taken : ℕ) (head message : Bytes) (l : LogFile)
      → Fits (writes log_time taken head message)
      → IsAccounted l
      → Runs (writes log_time taken head message) l
  unfolding run_op write
  write-Runs log_time taken head message l fits v = elim (Bool-cases l.file) [
    | inl opened ↦
        let (line, e) = message_line-some head message fits.0 in
        (
          write_line flags log_time taken line l,
          ground arith,
          write_line-IsAccounted log_time taken line l (omega arith) opened v,
        )
    | inr shut ↦ (l, ground arith, v)
  ]

  run_op-Runs : (op : LogOp) (l : LogFile) → Fits op → IsAccounted l → Runs op l
  unfolding run_op
  run_op-Runs (writes_string log_time taken text) l fits v =
      write_string-Runs log_time taken text l fits v
  run_op-Runs (writes log_time taken head message) l fits v =
      write-Runs log_time taken head message l fits v
  run_op-Runs (creates named o) l fits v =
      ((create_logfile flags named o l).1, refl, create_logfile-IsAccounted named o l v)
  run_op-Runs closes l fits v = (close flags l, refl, close-IsAccounted l v)

  -- As long as the lines fit into the buffer, and `fwrite` takes no more than it is given, any
  -- sequence of operations goes well, and at its end `bytes_since_flush_` is the number of bytes
  -- written since the last flush, less than a million.
  pub run_ops-IsAccounted :
      (ops : List LogOp) (l : LogFile)
      → All Fits ops
      → IsAccounted l
      → (l' : LogFile) × (run_ops ops l ≡ some l') × IsAccounted l'
  unfolding run_ops
  run_ops-IsAccounted [] l fits v = (l, refl, v)
  run_ops-IsAccounted (op ∷ ops) l fits v =
      let (l1, e, v1) = run_op-Runs op l fits.0 v in
      let (l2, e', v2) = run_ops-IsAccounted ops l1 fits.1 v1 in (l2, rw e e', v2)

  -- A line that is written with `force_flush`, or at or after the time for the next flush, leaves nothing
  -- that is not flushed, and the next flush is due after `logbufsecs`.
  pub write_string_flushed :
      (log_time taken : ℕ) (text : Bytes) (l : LogFile) {l' : LogFile}
      → l.file ≡ true
      → (flags.force_flush ≡ true) ⊎ (l.next_flush_time ≤ log_time)
      → write_string flags log_time taken text l ≡ some l'
      → (unflushed l'.calls ≡ 0) × (l'.next_flush_time ≡ log_time + flags.logbufsecs * 1000000)
  unfolding write_string write_line flush
  write_string_flushed log_time taken text l opened due h = ground arith
