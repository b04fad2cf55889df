-- ===== src/Resolver/Tests.antt =====
-- Runs of tornado/Resolver.cpp on a small table, with a sorted list for the container of the timers.
use simplesvr.Prelude.{◌≡◌, refl, true, false, List, [], ◌∷◌, none, some, replicate, arith, codes}
use simplesvr.Prelude.Int.{pos}
use simplesvr.Stream.{read_event, no_events}
use simplesvr.TimeoutQueue.MultiIndex.{has_id}
use simplesvr.TimeoutQueue.Timers.{IsValid}
use simplesvr.TimeoutQueue.SortedList.{sorted_list}
use simplesvr.Loop.{free_slot}
use simplesvr.Resolver
use simplesvr.Resolver.{
  AresCall, AresEvent, sock_state, host_reply, OnReply, sock_state_callback, run_events,
  run_callback, remove_timer, gethostbyname, on_timer,
}
use simplesvr.Resolver.Sockets.{IsRegistered}
use simplesvr.Resolver.Runs.{run_events-IsRegistered}
use simplesvr.Resolver.Lifetime.{destroy_resolver, destroy_resolver_timer}
use simplesvr.Resolver.Lookups.{timers, run_callback_once, gethostbyname_twice}

abbrev ready_resolver : Resolver.Resolver sorted_list 7 8
ready_resolver = record {
  ready = true;
  state = no_events;
  timer = 0;
  cb = none;
  loop = record {
    handle_num = 0;
    handlers = replicate 8 free_slot;
    callbacks = [];
    timeouts = record { timeouts = []; next_id = 1 };
    running = true;
    controls = [];
  };
}

-- A lookup waits for its reply.
abbrev waiting_resolver : Resolver.Resolver sorted_list 7 8
waiting_resolver = record ready_resolver {
  state = read_event;
  timer = 1;
  cb = some 3;
  loop = record (ready_resolver.loop) {
    timeouts = record {
      timeouts = record { id = 1; expiration = 50; callback = 8 } ∷ [];
      next_id = 2;
    };
  };
}

abbrev says_nothing : OnReply sorted_list 7 8
says_nothing cb err hosts r = r

-- c-ares asks for a socket, is done with it and replies.
abbrev one_lookup : List AresEvent
one_lookup =
    sock_state 5 true false (pos 0)
    ∷ sock_state 5 false false (pos 0)
    ∷ host_reply (some (codes "127.0.0.1" ∷ []))
    ∷ []

abbrev later_reply : AresCall → List AresEvent
later_reply call = []

run_events-IsRegistered_example :
    (r' : Resolver.Resolver sorted_list 7 8) × (run_events sorted_list 7 8 says_nothing one_lookup
        ready_resolver
      ≡ some r')
    × IsRegistered sorted_list 7 8 5 r'
run_events-IsRegistered_example =
    run_events-IsRegistered sorted_list 7 8 5 says_nothing one_lookup ready_resolver
      (λ cb err hosts r v. v) (refl, (refl, tt))
      (record { ready = refl; inside = refl; taken = refl })

-- The callback begins another lookup, with itself as the callback.
abbrev asks_again : OnReply sorted_list 7 8
asks_again cb err hosts r = record r { timer = cb; cb = some cb }

run_callback_once_example :
    run_callback sorted_list 7 8 asks_again
      (pos 0)
      none
      (run_callback sorted_list 7 8 asks_again (pos 0) (some []) waiting_resolver)
    ≡ remove_timer sorted_list 7 8
        (record (asks_again 3 (pos 0) (some []) (remove_timer sorted_list 7 8 waiting_resolver)) {
          cb = none;
        })
run_callback_once_example =
    run_callback_once sorted_list 7 8 asks_again (pos 0) (pos 0) 3 (some []) none waiting_resolver
      refl

waiting-IsValid : IsValid sorted_list waiting_resolver.loop.timeouts
waiting-IsValid = record {
  sorted = (tt, tt);
  unique = (refl, tt);
  issued = (ground arith, tt);
  started = omega arith;
}

idle-IsValid : IsValid sorted_list ready_resolver.loop.timeouts
idle-IsValid = record { sorted = tt; unique = tt; issued = tt; started = omega arith }

gethostbyname_twice_example :
    (r' : Resolver.Resolver sorted_list 7 8) × (gethostbyname sorted_list 7 8 says_nothing
        later_reply 20 4
        (codes "host")
        2
        1000
        waiting_resolver
      ≡ some r')
    × (has_id 1 (timers sorted_list 7 8 r') ≡ true)
    × (on_timer sorted_list 7 8 says_nothing later_reply 1 r' ≡ none)
gethostbyname_twice_example =
    gethostbyname_twice sorted_list 7 8 says_nothing later_reply 20 4 (codes "host") 2 1000
      waiting_resolver refl waiting-IsValid (omega arith) refl refl

-- A name that is known is answered at once.
abbrev answer_now : AresCall → List AresEvent
answer_now call = host_reply (some (codes "127.0.0.1" ∷ [])) ∷ []

destroy_resolver_timer_example :
    (r' : Resolver.Resolver sorted_list 7 8) × (last : Resolver.Resolver sorted_list 7 8)
    × (gethostbyname sorted_list 7 8 says_nothing answer_now 20 4
          (codes "127.0.0.1")
          2
          1000
          ready_resolver
        ≡ some r')
    × (r'.cb ≡ none)
    × (destroy_resolver sorted_list 7 8 says_nothing [] r' ≡ some last)
    × (last.ready ≡ false)
    × (has_id r'.timer (timers sorted_list 7 8 last) ≡ true)
destroy_resolver_timer_example =
    destroy_resolver_timer sorted_list 7 8 says_nothing answer_now 20 4 (codes "127.0.0.1") 2 1000
      (some (codes "127.0.0.1" ∷ [])) ready_resolver refl refl idle-IsValid (omega arith)
      (λ cb err hosts r. refl) refl
