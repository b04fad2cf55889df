-- ===== src/Loop/Tests.antt =====
-- Runs of tornado/IOLoop.cpp, with a sorted list for the container of the timers.
use simplesvr.Prelude.{
  ◌++◌, zero, suc, sym, replicate, ◌+◌, ◌≡◌, ◌≢◌, ◌≤◌, ◌⊎◌, refl, true, false, ◌||◌, List, [], ◌∷◌,
  none, some, ◌==◌, ℕ,
}
use simplesvr.Prelude.Int.{pos, negsuc}
use simplesvr.Stream.{Call, Job, read_event, add_handler, remove_handler, close_fd}
use simplesvr.TimeoutQueue
use simplesvr.TimeoutQueue.{next_expiration, empty}
use simplesvr.TimeoutQueue.SortedList.{sorted_list}
use simplesvr.Loop
use simplesvr.Loop.{
  Loop, SignalSetup, add_signal_handler, add_callback, add_timeout, Slot, free_slot, slot_at,
  in_range, is_nil, stop, Effects, Round, stopped, idle, start, poll_timeout, run_rounds,
  run_pending, run_callbacks, call_all,
}
use simplesvr.Loop.Table.{IsCounted, count_taken}
use simplesvr.Loop.Counting.{
  LoopCall, adds, removes, signals, posts, schedules, run_call, run_calls,
}
use simplesvr.Loop.Watching.{watches, IsWatched}
use simplesvr.Loop.Lifetime.{new_loop, get_max_fd, get_handler_num, new_loop-calls}
use simplesvr.Loop.Callbacks.{run_callbacks-added}
use simplesvr.Loop.Start.{poll_timeout_lem}
use simplesvr.Loop.Restarts.{start_idle}
use simplesvr.Loop.Streams.{make_calls, make_calls-registered}

abbrev small_loop : Loop sorted_list
small_loop = record {
  handle_num = 0;
  handlers = free_slot ∷ free_slot ∷ free_slot ∷ free_slot ∷ free_slot ∷ free_slot ∷ [];
  callbacks = [];
  timeouts = record { timeouts = []; next_id = 1 };
  running = false;
  controls = [];
}

abbrev busy_loop : Loop sorted_list
busy_loop = record small_loop { callbacks = 1 ∷ [] }

-- Every callback stops the loop.
abbrev stopping : Effects sorted_list
stopping = record {
  on_callback = λ cb l. record l { running = false };
  on_timer = λ cb id now l. l;
  on_event = λ cb fd events l. l;
}

abbrev one_round : List (Round sorted_list)
one_round = record { timer_now = 10; poll_now = 10; polled = [] } ∷ []

abbrev numbered : Job → ℕ
numbered job = 1

abbrev short_life : List Call
short_life = close_fd 5 ∷ remove_handler 5 ∷ add_handler 5 read_event ∷ []

make_calls-registered_example :
    (l' : Loop sorted_list) × (make_calls sorted_list 9 numbered short_life small_loop ≡ some l')
    × (in_range sorted_list 5 l' ≡ true)
    × ((slot_at l'.handlers 5).taken ≡ false)
make_calls-registered_example =
    make_calls-registered sorted_list 9 numbered 5 short_life small_loop
      (refl, refl, refl, (refl, refl, refl, (refl, refl, refl, tt))) refl refl

poll_timeout_lem_example :
    (poll_timeout sorted_list 10 busy_loop ≤ 60000)
    × (false || (poll_timeout sorted_list 10 busy_loop == 0) ≡ true)
    × ((poll_timeout sorted_list 10 busy_loop ≡ 0)
        ⊎ (10 + poll_timeout sorted_list 10 busy_loop
            ≤ next_expiration sorted_list busy_loop.timeouts))
poll_timeout_lem_example = poll_timeout_lem sorted_list 10 busy_loop

runs_idle :
    start sorted_list stopping one_round small_loop
    ≡ some (idle (record small_loop { running = true }))
unfolding start run_rounds run_pending empty
runs_idle = refl

abbrev woken : Loop sorted_list
woken = record small_loop {
  callbacks = 4 ∷ [];
  timeouts = record {
    timeouts = record { id = 1; expiration = 15; callback = 6 } ∷ [];
    next_id = 2;
  };
  running = true;
}

wakes :
    run_calls sorted_list (posts 4 ∷ schedules 10 5 6 ∷ []) (record small_loop { running = true })
    ≡ some woken
unfolding run_calls run_call add_callback add_timeout TimeoutQueue.add
wakes = refl

start_idle_example :
    (start sorted_list stopping one_round woken ≡ none)
    × (start sorted_list stopping one_round (stop sorted_list woken) ≢ none)
start_idle_example =
    start_idle sorted_list stopping one_round one_round (posts 4 ∷ schedules 10 5 6 ∷ []) small_loop
      (record small_loop { running = true }) woken runs_idle ((λ e. cc), ((λ e. cc), tt)) wakes

runs_stopped : start sorted_list stopping one_round busy_loop ≡ some (stopped small_loop)
unfolding start run_rounds run_pending run_callbacks call_all empty
runs_stopped = refl

small_loop-IsCounted : IsCounted sorted_list small_loop
small_loop-IsCounted = record { counted = refl }

abbrev one_handler : Loop sorted_list
one_handler = record small_loop {
  handle_num = 1;
  handlers =
      free_slot
      ∷ free_slot
      ∷ free_slot
      ∷ record { taken = true; cb = some 9 }
      ∷ free_slot
      ∷ free_slot
      ∷ [];
}

added_handler :
    Loop.add_handler sorted_list 3 (some 9) read_event (pos 0) small_loop
    ≡ some (
      pos 0,
      record one_handler {
        controls =
            Loop.register_fd 3 (record { readable = true; writable = false; failing = true }) ∷ [];
      },
    )
unfolding Loop.add_handler
added_handler = refl

-- `registerFD` fails.
abbrev refused : SignalSetup
refused = record { blocked = true; signal_fd = some 4; registered = negsuc 0; unregistered = pos 0 }

abbrev some_calls : List LoopCall
some_calls =
    adds 3 (some 9) read_event (negsuc 0) ∷ signals refused 9 ∷ removes 3 (pos 0) ∷ posts 1 ∷ []

abbrev after_calls : Loop sorted_list
after_calls = record small_loop {
  callbacks = 1 ∷ [];
  controls =
      Loop.unregister_fd 3
      ∷ Loop.unregister_fd 4
      ∷ Loop.register_fd 4 (record { readable = true; writable = false; failing = true })
      ∷ Loop.register_fd 3 (record { readable = true; writable = false; failing = true })
      ∷ [];
}

calls_made : run_calls sorted_list some_calls small_loop ≡ some after_calls
unfolding run_calls run_call Loop.add_handler Loop.remove_handler add_signal_handler
    Loop.add_callback
calls_made = refl

nothing_taken : (n fd : ℕ) → (slot_at (replicate n free_slot) fd).taken ≡ false
nothing_taken zero fd = refl
nothing_taken (suc n) zero = refl
nothing_taken (suc n) (suc fd) = nothing_taken n fd

small_loop-IsWatched : IsWatched sorted_list small_loop
small_loop-IsWatched = record { watched = λ fd. sym (nothing_taken 6 fd) }

-- Every callback adds another one.
abbrev reposting : Effects sorted_list
reposting = record stopping {
  on_callback = λ cb l. record l { callbacks = l.callbacks ++ (cb + 1) ∷ [] };
}

run_callbacks-added_example :
    let l' = run_callbacks sorted_list reposting busy_loop in
    (l'.callbacks ≡ 2 ∷ []) × (is_nil l'.callbacks ≡ false → poll_timeout sorted_list 10 l' ≡ 0)
run_callbacks-added_example =
    run_callbacks-added sorted_list reposting (λ cb. (cb + 1) ∷ []) 10 busy_loop (λ cb l. refl)

new_loop-calls_example :
    (get_max_fd sorted_list after_calls ≡ 6)
    × (get_handler_num sorted_list after_calls ≡ count_taken after_calls.handlers)
    × ((fd : ℕ) → watches after_calls.controls fd ≡ (slot_at after_calls.handlers fd).taken)
unfolding new_loop
new_loop-calls_example = new_loop-calls sorted_list 6 some_calls calls_made
