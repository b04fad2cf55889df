-- ===== src/Stream/Calls/Steps.antt =====
-- Every operation of tornado/IOStream.cpp keeps the invariant of its calls: the reading half.
use simplesvr.Prelude.{
  ◌+◌, ◌≤◌, Bool, true, false, not, ◌&&◌, List, [], ◌∷◌, arith, Bytes, length, length-overwrite,
  Option-cases, inl, inr, if_elim, ltb, leb,
}
use simplesvr.Prelude.Partial.{All}
use simplesvr.Buffer.{Buffer, readable_bytes, ensure_writable_bytes, writable_bytes, find}
use simplesvr.Buffer.Bounds
use simplesvr.Buffer.Bounds.{
  read_bytes_to_string-IsValid, read_bytes-IsValid, append-IsValid, ensure_writable_bytes-IsValid,
  ensure_writable_bytes-room, extend_read_bytes-IsValid,
}
use simplesvr.Stream.{
  Stream, Receive, received, receive_fails, unset, would_block, other, read_chunk_size,
}
use simplesvr.Stream.Reading.{
  store, take_received, read_to_buffer, read_to_buffer_loop, deliver_count, deliver_delimited,
  deliver_available, deliver_read, handle_read, remaining, is_empty,
}
use simplesvr.Stream.Calls.{IsValid, LeavesValid, IsRead}

store-IsValid :
    (b : Buffer) (bytes : Bytes)
    → Bounds.IsValid b
    → length bytes ≤ writable_bytes b
    → Bounds.IsValid (store b bytes)
unfolding store
store-IsValid b bytes v h = ground (arith, length-overwrite b.mem b.read_index bytes)

take_received-IsValid :
    (b : Buffer) (r : Receive)
    → Bounds.IsValid b
    → read_chunk_size ≤ writable_bytes b
    → IsRead r
    → Bounds.IsValid (take_received b r).1
unfolding take_received
take_received-IsValid b (received bytes) v h k =
    ground
      (arith, store-IsValid b bytes v, extend_read_bytes-IsValid (store b bytes) (length bytes))
take_received-IsValid b (receive_fails unset) v h k = v
take_received-IsValid b (receive_fails would_block) v h k = v
take_received-IsValid b (receive_fails other) v h k = v

-- The bytes of a `read` are stored inside the array.
pub read_to_buffer-IsValid :
    (b : Buffer) (r : Receive) → Bounds.IsValid b → IsRead r → Bounds.IsValid (read_to_buffer b r).2
unfolding read_to_buffer
read_to_buffer-IsValid b r v k = ground (
  arith,
  ensure_writable_bytes-IsValid b read_chunk_size v,
  ensure_writable_bytes-room b read_chunk_size v,
  take_received-IsValid (ensure_writable_bytes b read_chunk_size).1 r,
)

remaining-All :
    (called : Bool) (r : Receive) (rs : List Receive)
    → IsRead r
    → All IsRead rs
    → All IsRead (remaining called r rs)
remaining-All true r rs h k = k
remaining-All false r rs h k = (h, k)

pub read_to_buffer_loop-IsValid :
    (rs : List Receive) (b : Buffer)
    → Bounds.IsValid b
    → All IsRead rs
    → Bounds.IsValid (read_to_buffer_loop rs b).2 × All IsRead (read_to_buffer_loop rs b).1
unfolding read_to_buffer_loop
read_to_buffer_loop-IsValid [] b v h =
    ground (arith, read_to_buffer-IsValid b (receive_fails would_block) v tt)
read_to_buffer_loop-IsValid (r ∷ rs) b v h = ground (
  arith,
  read_to_buffer-IsValid b r v h.0,
  remaining-All (read_to_buffer b r).1 r rs h.0 h.1,
  read_to_buffer_loop-IsValid rs (read_to_buffer b r).2 (read_to_buffer-IsValid b r v h.0) h.1,
)

pub deliver_count-IsValid : (s : Stream) → IsValid s → IsValid (deliver_count s).1
unfolding deliver_count
deliver_count-IsValid s v =
    ground (arith, read_bytes_to_string-IsValid s.read_buffer s.read_bytes [])

pub deliver_delimited-IsValid : (s : Stream) → IsValid s → IsValid (deliver_delimited s).1
unfolding deliver_delimited
deliver_delimited-IsValid s v = elim (Option-cases (find s.read_buffer s.read_delimiter)) [
  | inl e ↦ rw (e, deliver_delimited) v
  | inr (i, e) ↦
      rw (e, deliver_delimited)
        (ground
          (arith, read_bytes_to_string-IsValid s.read_buffer (i + length s.read_delimiter) []))
]

pub deliver_available-IsValid : (s : Stream) → IsValid s → IsValid (deliver_available s).1
unfolding deliver_available
deliver_available-IsValid s v =
    ground (arith, read_bytes_to_string-IsValid s.read_buffer (readable_bytes s.read_buffer) [])

pub deliver_read-IsValid : (s : Stream) → IsValid s → IsValid (deliver_read s).1
unfolding deliver_read
deliver_read-IsValid s v =
    if_elim LeavesValid (ltb 0 s.read_bytes && leb s.read_bytes (readable_bytes s.read_buffer))
      (λ _. deliver_count-IsValid s v)
      (λ _.
        if_elim LeavesValid (not (is_empty s.read_delimiter)) (λ _. deliver_delimited-IsValid s v)
          (λ _.
            if_elim LeavesValid s.read_until_close (λ _. deliver_available-IsValid s v) (λ _. v)))

-- A stream whose buffer and script were moved on by `readToBufferLoop`.
received-IsValid :
    (s : Stream) (rs : List Receive) (b : Buffer)
    → IsValid s
    → Bounds.IsValid b
    → All IsRead rs
    → IsValid (record s { receives = rs; read_buffer = b })
received-IsValid s rs b v h k = record {
  reads = h;
  writes = v.writes;
  orderly = v.orderly;
  in_loop = v.in_loop;
  closed_once = v.closed_once;
  scripted = k;
  released = v.released;
}

pub handle_read-IsValid : (s : Stream) → IsValid s → IsValid (handle_read s).1
unfolding handle_read
handle_read-IsValid s v =
    let (b, rs) = read_to_buffer_loop-IsValid s.receives s.read_buffer v.reads v.scripted in
    let t =
      received-IsValid s (read_to_buffer_loop s.receives s.read_buffer).1
        (read_to_buffer_loop s.receives s.read_buffer).2 v b rs in
    if_elim LeavesValid (read_to_buffer_loop s.receives s.read_buffer).0
      (λ _. deliver_read-IsValid _ t) (λ _. t)
