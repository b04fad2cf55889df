-- ===== src/Stream/Calls/Frame.antt =====
-- What the two halves of tornado/IOStream.cpp leave alone: the reader and the writer change neither
-- the registration of the stream nor whether it is closed.
use simplesvr.Prelude.{
  ◌≡◌, refl, Bool, List, [], ◌∷◌, ◌==◌, ◌++◌, Option-cases, inl, inr, arith, if_elim, not, ◌&&◌,
  ltb, leb, take,
}
use simplesvr.Buffer.{readable_bytes, read_bytes, contents, find}
use simplesvr.Stream.{Stream, Send, accepts, send_fails, unset, would_block, other}
use simplesvr.Stream.Reading.{
  read_to_buffer_loop, deliver_count, deliver_delimited, deliver_available, deliver_read,
  handle_read, is_empty,
}
use simplesvr.Stream.Writing.{taken, write_loop, finish_write, handle_write}

-- The result's stream has the registration and the `closed` flag of `s`.
pub record SameState (s : Stream) (r : Bool × Stream) : Type 0 where
  pub state : r.1.state ≡ s.state
  pub closed : r.1.closed ≡ s.closed
  pub socket : r.1.socket ≡ s.socket

deliver_count-SameState : (s : Stream) → SameState s (deliver_count s)
unfolding deliver_count
deliver_count-SameState s = ground arith

deliver_delimited-SameState : (s : Stream) → SameState s (deliver_delimited s)
unfolding deliver_delimited
deliver_delimited-SameState s = elim (Option-cases (find s.read_buffer s.read_delimiter)) [
  | inl e ↦ rw (e, deliver_delimited) (ground arith)
  | inr (i, e) ↦ rw (e, deliver_delimited) (ground arith)
]

deliver_available-SameState : (s : Stream) → SameState s (deliver_available s)
unfolding deliver_available
deliver_available-SameState s = ground arith

deliver_read-SameState : (s : Stream) → SameState s (deliver_read s)
unfolding deliver_read
deliver_read-SameState s =
    if_elim (SameState s) (ltb 0 s.read_bytes && leb s.read_bytes (readable_bytes s.read_buffer))
      (λ _. deliver_count-SameState s)
      (λ _.
        if_elim (SameState s) (not (is_empty s.read_delimiter)) (λ _. deliver_delimited-SameState s)
          (λ _.
            if_elim (SameState s) s.read_until_close (λ _. deliver_available-SameState s)
              (λ _. record { state = refl; closed = refl; socket = refl })))

pub handle_read-SameState : (s : Stream) → SameState s (handle_read s)
unfolding handle_read
handle_read-SameState s =
    let rs = (read_to_buffer_loop s.receives s.read_buffer).1 in
    let b = (read_to_buffer_loop s.receives s.read_buffer).2 in
    let d = deliver_read-SameState (record s { receives = rs; read_buffer = b }) in
    if_elim (SameState s) (read_to_buffer_loop s.receives s.read_buffer).0
      (λ _. record { state = d.state; closed = d.closed; socket = d.socket })
      (λ _. record { state = refl; closed = refl; socket = refl })

write_loop-SameState : (rs : List Send) (s : Stream) → SameState s (write_loop rs s)
unfolding write_loop
write_loop-SameState [] s = record { state = refl; closed = refl; socket = refl }
write_loop-SameState (send_fails unset ∷ rs) s = ground arith
write_loop-SameState (send_fails would_block ∷ rs) s = ground arith
write_loop-SameState (send_fails other ∷ rs) s = ground arith
write_loop-SameState (accepts room ∷ rs) s =
    let n = taken room s in
    let b = (read_bytes s.write_buffer n).1 in
    let out = s.sent ++ take n (contents s.write_buffer) in
    let ih = write_loop-SameState rs (record s { sent = out; write_buffer = b }) in
    if_elim (SameState s) (readable_bytes s.write_buffer == 0)
      (λ _. record { state = refl; closed = refl; socket = refl })
      (λ _.
        if_elim (SameState s) (n == 0) (λ _. record { state = refl; closed = refl; socket = refl })
          (λ _.
            if_elim (SameState s) (read_bytes s.write_buffer n).0
              (λ _. record { state = ih.state; closed = ih.closed; socket = ih.socket })
              (λ _. record { state = refl; closed = refl; socket = refl })))

pub handle_write-SameState : (s : Stream) → SameState s (handle_write s)
unfolding handle_write finish_write
handle_write-SameState s =
    let w = write_loop-SameState s.sends s in ground (arith, w.state, w.closed, w.socket)
