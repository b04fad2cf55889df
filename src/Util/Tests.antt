-- ===== src/Util/Tests.antt =====
-- Runs of tornado/util.
use simplesvr.Prelude.{ℕ, arith, ◌≡◌, true, some}
use simplesvr.Util.Files.{File}
use simplesvr.Util.Randoms.{Uniform}
use simplesvr.Util.Guards.{make_guard, dismiss, moves, destroy_all, destroy_all-moves}

abbrev opened_file : File
opened_file = record { fd = some 4 }

dismissed_runs_never : destroy_all (moves 2 (dismiss make_guard)) ≡ 0
unfolding dismiss
dismissed_runs_never = destroy_all-moves 2 (record { dismissed = true })

-- A distribution of which only the lower end comes.
abbrev lowest : Uniform
lowest = record {
  Generator = ℕ;
  draw = λ low high g. (low, g);
  draw-bounds = λ low high g h. (omega arith, h);
}
