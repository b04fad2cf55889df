-- ===== src/Logging/Tests.antt =====
-- Runs of tornado/Logging.cpp.
use simplesvr.Prelude.{
  ◌+◌, ◌≡◌, ◌≤◌, ◌<◌, ◌↔◌, refl, true, false, List, [], ◌∷◌, ◌++◌, none, some, arith, length, take,
  codes,
}
use simplesvr.Logging.{
  string_line, message_line, Flags, LogFile, LogOpening, fflushes, fwrites, fopens, write_string,
  write_line, flush,
}
use simplesvr.Logging.Lines.{message_line_lem}
use simplesvr.Logging.Flushing.{
  LogOp, writes_string, creates, closes, IsAccounted, new_log, new_log-IsAccounted, run_ops,
  run_ops-IsAccounted,
}

abbrev ten_seconds : Flags
ten_seconds = record { force_flush = false; logbufsecs = 10 }

abbrev new_file : LogOpening
new_file = record { created = true; exists = false; reopened = false; streamed = true }

abbrev short_run : List LogOp
short_run =
    creates true new_file
    ∷ writes_string 5 3 (codes "ab")
    ∷ writes_string 9000000 4 (codes "abc")
    ∷ closes
    ∷ []

message_line_lem_example :
    ((message_line (codes "a|") (codes "b") ≡ none) ↔ (102400 ≤ 3))
    × ((3 < 102399)
        → message_line (codes "a|") (codes "b") ≡ some (codes "a|" ++ codes "b" ++ 10 ∷ []))
    × ((0 < 1)
        → length (codes "a|") + length (codes "b") ≡ 102399
        → message_line (codes "a|") (codes "b")
          ≡ some (codes "a|" ++ take 0 (codes "b") ++ 0 ∷ 10 ∷ []))
message_line_lem_example = message_line_lem (codes "a|") (codes "b")

run_ops-IsAccounted_example :
    (l' : LogFile) × (run_ops ten_seconds short_run new_log ≡ some l') × IsAccounted l'
run_ops-IsAccounted_example =
    run_ops-IsAccounted ten_seconds short_run new_log
      (tt, ((omega arith, omega arith), ((omega arith, omega arith), (tt, tt)))) new_log-IsAccounted

abbrev open_log : LogFile
open_log = record { file = true; bytes_since_flush = 0; next_flush_time = 7; calls = fopens ∷ [] }

abbrev flushed_log : LogFile
flushed_log = record {
  file = true;
  bytes_since_flush = 0;
  next_flush_time = 10000009;
  calls = fflushes ∷ fwrites (codes "ab" ++ 10 ∷ []) 3 ∷ fopens ∷ [];
}

writes_flushed : write_string ten_seconds 9 3 (codes "ab") open_log ≡ some flushed_log
unfolding write_string write_line flush string_line
writes_flushed = refl
