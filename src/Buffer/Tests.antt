-- ===== src/Buffer/Tests.antt =====
-- Runs of the operations of tornado/Buffer.h on a small buffer.
use simplesvr.Prelude.{◌≡◌, refl, [], ◌∷◌, List, some, arith}
use simplesvr.Buffer.{Buffer, search, contents, find}
use simplesvr.Buffer.Bounds.{IsValid}
use simplesvr.Buffer.Script.{Op, appends, reads, skips, clears, run, run_queue, run_refines}

-- Three unread bytes in a buffer of eight, with two bytes that were read before them.
abbrev half_full : Buffer
half_full = record {
  mem = 9 ∷ 9 ∷ 10 ∷ 11 ∷ 12 ∷ 0 ∷ 0 ∷ 0 ∷ [];
  buff_len = 8;
  read_index = 2;
  write_index = 5;
}

half_full-IsValid : IsValid half_full
half_full-IsValid = record {
  storage = refl;
  ordered = omega arith;
  in_range = omega arith;
  small = omega arith;
}

abbrev script : List Op
script = appends (1 ∷ 2 ∷ 3 ∷ 4 ∷ []) ∷ reads 2 ∷ skips 9 ∷ skips 1 ∷ clears ∷ reads 1 ∷ []

run_refines_example : run half_full script ≡ run_queue 8 (contents half_full) script
run_refines_example = run_refines half_full script half_full-IsValid

find_twelve : find half_full (12 ∷ []) ≡ some 2
unfolding find search
find_twelve = refl
