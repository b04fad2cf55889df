-- ===== src/TcpServer/Tests.antt =====
-- Runs of tornado/TcpServer.cpp on a small table, with a sorted list for the container of the timers.
use simplesvr.Prelude.{ℕ, ◌≡◌, refl, true, false, [], ◌∷◌, none, some, replicate, arith}
use simplesvr.Prelude.Int.{pos, negsuc}
use simplesvr.TimeoutQueue.SortedList.{sorted_list}
use simplesvr.Loop.{Loop, free_slot}
use simplesvr.Loop.Signals.{IsSameTable}
use simplesvr.TcpServer.{Opening, TcpServer, accepted, aborted, stop, listen, handle_connection}
use simplesvr.TcpServer.Lifetime.{destroy_server, destroy_server-new_server}
use simplesvr.TcpServer.Accepting.{handle_connection-accepted}

abbrev quiet_loop : Loop sorted_list
quiet_loop = record {
  handle_num = 0;
  handlers = replicate 8 free_slot;
  callbacks = [];
  timeouts = record { timeouts = []; next_id = 1 };
  running = false;
  controls = [];
}

abbrev idle_server : TcpServer sorted_list
idle_server = record { socket = none; loop = quiet_loop; closed = []; accepts = [] }

-- `bind` fails.
abbrev taken_port : Opening
taken_port = record {
  opened = some 5;
  options_set = true;
  bound = false;
  listening = true;
  registered = pos 0;
}

abbrev free_port : Opening
free_port = record taken_port { bound = true }

abbrev unbound_server : TcpServer sorted_list
unbound_server = record idle_server { socket = some 5 }

fails_to_bind : listen sorted_list taken_port 9 idle_server ≡ some (negsuc 0, unbound_server)
unfolding listen
fails_to_bind = refl

destroy_server-new_server_example :
    let s = destroy_server sorted_list (pos 0) unbound_server in
    (destroy_server sorted_list (pos 0) (stop sorted_list (pos 0) unbound_server) ≡ s)
    × (s.closed ≡ 5 ∷ [])
    × IsSameTable sorted_list quiet_loop s.loop
destroy_server-new_server_example =
    destroy_server-new_server sorted_list taken_port 9 5 (pos 0) (pos 0) quiet_loop [] refl refl
      fails_to_bind

-- A server that counts the connections as closed descriptors.
abbrev note : ℕ → TcpServer sorted_list → TcpServer sorted_list
note fd s = record s { closed = fd ∷ s.closed }

handle_connection-accepted_example :
    handle_connection sorted_list note 5
      (record unbound_server { accepts = aborted ∷ accepted 6 ∷ accepted 7 ∷ [] })
    ≡ some (record unbound_server { closed = 6 ∷ []; accepts = accepted 7 ∷ [] })
handle_connection-accepted_example =
    handle_connection-accepted sorted_list note 5 1 6 (accepted 7 ∷ [])
      (record unbound_server { accepts = aborted ∷ accepted 6 ∷ accepted 7 ∷ [] }) refl refl
      (omega arith)
