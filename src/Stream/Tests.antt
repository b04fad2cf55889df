-- ===== src/Stream/Tests.antt =====
-- Runs of tornado/IOStream.cpp on a stream with small buffers.
use simplesvr.Prelude.{
  ℕ, ◌+◌, ◌≡◌, ◌≢◌, ◌≤◌, refl, true, false, List, [], ◌∷◌, ◌++◌, none, some, arith, replicate,
  length-replicate,
}
use simplesvr.Prelude.Int.{pos}
use simplesvr.Buffer.{ensure_writable_bytes, extend_read_bytes, Buffer, contents, readable_bytes}
use simplesvr.Buffer.Bounds
use simplesvr.Buffer.Search.{Occurs}
use simplesvr.Stream.{
  Stream, received, receive_fails, accepts, send_fails, would_block, read_event, write_event,
}
use simplesvr.Stream.Reading.{
  read_to_buffer_loop, take_received, store, deliver_read, read_to_buffer, handle_read,
}
use simplesvr.Stream.Writing.{write_loop, finish_write, handle_write}
use simplesvr.Stream.Api.{write_bytes, read_until}
use simplesvr.Stream.Calls.{IsValid}
use simplesvr.Stream.Calls.Dispatch.{
  Op, connects, writes, reads, events_come, closes, run, run-IsValid,
}
use simplesvr.Stream.Transfer.Input.{read_to_buffer_breaks}
use simplesvr.Stream.Transfer.Output.{output, added, output-write_bytes}
use simplesvr.Stream.Transfer.Requests.{Served, read_until_local}

abbrev empty_buffer : Buffer
empty_buffer = record { mem = replicate 2000 0; buff_len = 2000; read_index = 0; write_index = 0 }

empty_buffer-IsValid : Bounds.IsValid empty_buffer
empty_buffer-IsValid = record {
  storage = length-replicate {A = ℕ} 2000 0;
  ordered = omega arith;
  in_range = omega arith;
  small = omega arith;
}

-- Holds "ab\n".
abbrev line_buffer : Buffer
line_buffer = record {
  mem = 97 ∷ 98 ∷ 10 ∷ replicate 2000 0;
  buff_len = 2003;
  read_index = 0;
  write_index = 3;
}

line_buffer-IsValid : Bounds.IsValid line_buffer
line_buffer-IsValid = record {
  storage = omega (arith, length-replicate {A = ℕ} 2000 0);
  ordered = omega arith;
  in_range = omega arith;
  small = omega arith;
}

abbrev client : Stream
client = record {
  socket = 5;
  connecting = false;
  closed = false;
  state = record { readable = false; writable = false; failing = false };
  connect_callback = none;
  read_callback = none;
  write_callback = none;
  close_callback = none;
  read_buffer = line_buffer;
  write_buffer = empty_buffer;
  read_bytes = 0;
  read_delimiter = [];
  read_until_close = false;
  receives = received (99 ∷ []) ∷ receive_fails would_block ∷ [];
  sends = accepts 2 ∷ send_fails would_block ∷ [];
  sent = [];
  calls = [];
}

client-IsValid : IsValid client
client-IsValid = record {
  reads = line_buffer-IsValid;
  writes = empty_buffer-IsValid;
  orderly = tt;
  in_loop = refl;
  closed_once = refl;
  scripted = (omega arith, (tt, tt));
  released = refl;
}

abbrev session : List Op
session =
    connects true (some 1)
    ∷ writes (104 ∷ 105 ∷ 33 ∷ [])
    ∷ events_come write_event false 0
    ∷ reads 7 (some 2)
    ∷ events_come read_event false 0
    ∷ closes
    ∷ []

run-IsValid_example : IsValid (run session client)
run-IsValid_example = run-IsValid session client client-IsValid

output-write_bytes_example :
    let r = write_bytes (104 ∷ 105 ∷ 33 ∷ []) client in
    output r.1 ≡ output client ++ added r.0 (104 ∷ 105 ∷ 33 ∷ [])
output-write_bytes_example = output-write_bytes (104 ∷ 105 ∷ 33 ∷ []) client empty_buffer-IsValid

read_until_local_example :
    (i : ℕ) × (t : Stream) × (i ≤ 2)
    × Occurs (10 ∷ []) (contents line_buffer) i
    × (read_until (10 ∷ []) (some 4) client ≡ some (pos 0, t))
    × Served 4 (i + 1) client t
read_until_local_example =
    read_until_local (10 ∷ []) 4 2 client line_buffer-IsValid refl (λ e. cc) refl

read_to_buffer_breaks_example :
    contents (read_to_buffer line_buffer (received (1 ∷ 2 ∷ []))).2
    ≢ contents line_buffer ++ (1 ∷ 2 ∷ [])
read_to_buffer_breaks_example =
    read_to_buffer_breaks line_buffer 97 1 (98 ∷ 10 ∷ []) (2 ∷ []) line_buffer-IsValid (omega arith)
      refl (λ e. absurd (omega arith)) (omega arith)

written : (handle_write client).0 ≡ true
unfolding handle_write write_loop
written = refl

all_written : readable_bytes (handle_write client).1.write_buffer ≡ 0
unfolding handle_write write_loop finish_write
all_written = refl

client_reads : (handle_read client).0 ≡ true
unfolding handle_read read_to_buffer_loop read_to_buffer ensure_writable_bytes take_received
    extend_read_bytes store deliver_read
client_reads = refl
