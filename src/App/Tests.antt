-- ===== src/App/Tests.antt =====
-- Runs of tornado/App.cpp on a small table, with a sorted list for the container of the timers.
use simplesvr.Prelude.{◌+◌, ℕ, ◌≡◌, refl, true, false, [], ◌∷◌, replicate, arith}
use simplesvr.TimeoutQueue.MultiIndex.{has_id, insert_sorted}
use simplesvr.TimeoutQueue.SortedList.{sorted_list}
use simplesvr.Loop.{free_slot}
use simplesvr.App
use simplesvr.App.{stop, signal_handler, start, run_one_loop}
use simplesvr.App.Timers.{timers, IsTicking, run_one_loop_lem}

abbrev stopped_app : App.App sorted_list 8 9
stopped_app = record {
  running = false;
  tid = 0;
  loop = record {
    handle_num = 0;
    handlers = replicate 6 free_slot;
    callbacks = [];
    timeouts = record { timeouts = []; next_id = 1 };
    running = false;
    controls = [];
  };
  closed = [];
}

abbrev ticking_app : App.App sorted_list 8 9
ticking_app = record stopped_app {
  running = true;
  tid = 1;
  loop = record (stopped_app.loop) {
    timeouts = record {
      timeouts = record { id = 1; expiration = 50; callback = 9 } ∷ [];
      next_id = 2;
    };
  };
}

ticking_app-IsTicking : IsTicking sorted_list 8 9 ticking_app
ticking_app-IsTicking = record {
  valid = record {
    sorted = (tt, tt);
    unique = (refl, tt);
    issued = (ground arith, tt);
    started = omega arith;
  };
  waits = λ e. refl;
}

-- Code that leaves the application as it is and asks for ten milliseconds.
abbrev quietly : App.App sorted_list 8 9 → ℕ × App.App sorted_list 8 9
quietly a = (10, a)

run_one_loop_lem_example :
    let a' = run_one_loop sorted_list 8 9 quietly 50 ticking_app in
    IsTicking sorted_list 8 9 a'
    × (a'.running ≡ true)
    × (has_id a'.tid (timers sorted_list 8 9 ticking_app) ≡ false)
    × (timers sorted_list 8 9 a'
        ≡ insert_sorted
            (record { id = a'.tid; expiration = 50 + 10; callback = 9 })
            (timers sorted_list 8 9 ticking_app))
run_one_loop_lem_example =
    run_one_loop_lem sorted_list 8 9 quietly 50 ticking_app refl (ticking_app-IsTicking.valid)
      (omega arith)
