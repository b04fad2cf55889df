-- ===== src/Stream/Calls/Writes.antt =====
-- Every operation of tornado/IOStream.cpp keeps the invariant of its calls: the writing half.
use simplesvr.Prelude.{List, [], ◌∷◌, ◌==◌, ◌++◌, arith, Bytes, if_elim, take}
use simplesvr.Buffer.{Buffer, readable_bytes, read_bytes, contents}
use simplesvr.Buffer.Bounds
use simplesvr.Buffer.Bounds.{read_bytes-IsValid}
use simplesvr.Stream.{Stream, Send, accepts, send_fails, unset, would_block, other}
use simplesvr.Stream.Writing.{taken, write_loop, finish_write, handle_write}
use simplesvr.Stream.Calls.{IsValid, LeavesValid}

-- The write buffer and the environment of `write(2)` may change freely.
pub written-IsValid :
    (s : Stream) (rs : List Send) (b : Buffer) (out : Bytes)
    → IsValid s
    → Bounds.IsValid b
    → IsValid (record s { write_buffer = b; sends = rs; sent = out })
written-IsValid s rs b out v h = record {
  reads = v.reads;
  writes = h;
  orderly = v.orderly;
  in_loop = v.in_loop;
  closed_once = v.closed_once;
  scripted = v.scripted;
  released = v.released;
}

pub write_loop-IsValid : (rs : List Send) (s : Stream) → IsValid s → IsValid (write_loop rs s).1
unfolding write_loop
write_loop-IsValid [] s v = written-IsValid s [] s.write_buffer s.sent v v.writes
write_loop-IsValid (send_fails unset ∷ rs) s v =
    if_elim LeavesValid (readable_bytes s.write_buffer == 0)
      (λ _. written-IsValid s (send_fails unset ∷ rs) s.write_buffer s.sent v v.writes)
      (λ _. written-IsValid s rs s.write_buffer s.sent v v.writes)
write_loop-IsValid (send_fails would_block ∷ rs) s v =
    if_elim LeavesValid (readable_bytes s.write_buffer == 0)
      (λ _. written-IsValid s (send_fails would_block ∷ rs) s.write_buffer s.sent v v.writes)
      (λ _. written-IsValid s rs s.write_buffer s.sent v v.writes)
write_loop-IsValid (send_fails other ∷ rs) s v =
    if_elim LeavesValid (readable_bytes s.write_buffer == 0)
      (λ _. written-IsValid s (send_fails other ∷ rs) s.write_buffer s.sent v v.writes)
      (λ _. written-IsValid s rs s.write_buffer s.sent v v.writes)
write_loop-IsValid (accepts room ∷ rs) s v =
    let n = taken room s in
    let moved = read_bytes-IsValid s.write_buffer n v.writes in
    let b = (read_bytes s.write_buffer n).1 in
    let out = s.sent ++ take n (contents s.write_buffer) in
    if_elim LeavesValid (readable_bytes s.write_buffer == 0)
      (λ _. written-IsValid s (accepts room ∷ rs) s.write_buffer s.sent v v.writes)
      (λ _.
        if_elim LeavesValid (n == 0) (λ _. written-IsValid s rs s.write_buffer s.sent v v.writes)
          (λ _.
            if_elim LeavesValid (read_bytes s.write_buffer n).0
              (λ _.
                write_loop-IsValid rs (record s { sent = out; write_buffer = b })
                  (written-IsValid s s.sends b out v moved))
              (λ _. written-IsValid s rs b out v moved)))

pub finish_write-IsValid : (s : Stream) → IsValid s → IsValid (finish_write s)
unfolding finish_write
finish_write-IsValid s v = ground arith

pub handle_write-IsValid : (s : Stream) → IsValid s → IsValid (handle_write s).1
unfolding handle_write
handle_write-IsValid s v =
    if_elim LeavesValid (write_loop s.sends s).0
      (λ _. finish_write-IsValid _ (write_loop-IsValid s.sends s v))
      (λ _. write_loop-IsValid s.sends s v)
