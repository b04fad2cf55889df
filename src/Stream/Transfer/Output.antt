-- ===== src/Stream/Transfer/Output.antt =====
-- Output of tornado/IOStream.cpp: no byte is lost, repeated or reordered on the way to the socket.
use simplesvr.Prelude.{
  ℕ, ◌≤◌, ◌≡◌, refl, sym, ap, ◌∙◌, Bool, true, false, List, [], ◌∷◌, ◌++◌, none, arith, Bytes,
  length, take, drop, ◌==◌, if_elim, take-append-drop, append_assoc, append-nil, zero, suc,
}
use simplesvr.Prelude.Int.{ℤ, pos, negsuc, is_nonzero}
use simplesvr.Buffer.{Buffer, readable_bytes, read_bytes, contents, append}
use simplesvr.Buffer.Bounds
use simplesvr.Buffer.Bounds.{read_bytes-IsValid, append-IsValid, length-contents}
use simplesvr.Buffer.Queue.{read_bytes_refines, append_refines}
use simplesvr.Stream.{
  Stream, Send, accepts, send_fails, unset, would_block, other, close, add_io_state, write_event,
}
use simplesvr.Stream.Writing.{taken, write_loop, finish_write, handle_write}
use simplesvr.Stream.Api.{just_write_bytes_to_buff, start_write, write_bytes}

-- All output so far, in order: what `write(2)` has taken and what waits in the buffer.
abbrev pub output : Stream → Bytes
output s = s.sent ++ contents s.write_buffer

Outputs : Stream → Bool × Stream → Type 0
Outputs s r = (output r.1 ≡ output s) × Bounds.IsValid r.1.write_buffer

-- One round of the loop moves bytes from the buffer to the socket.
output-round :
    (s : Stream) (n : ℕ)
    → Bounds.IsValid s.write_buffer
    → n ≤ readable_bytes s.write_buffer
    → (s.sent ++ take n (contents s.write_buffer)) ++ contents (read_bytes s.write_buffer n).1
      ≡ output s
output-round s n v h =
    append_assoc s.sent (take n (contents s.write_buffer))
      (contents (read_bytes s.write_buffer n).1)
    ∙ ap (λ l. s.sent ++ l)
        (ap (λ l. take n (contents s.write_buffer) ++ l) rest
          ∙ take-append-drop n (contents s.write_buffer))
  where
    rest : contents (read_bytes s.write_buffer n).1 ≡ drop n (contents s.write_buffer)
    rest = ground (arith, length-contents s.write_buffer v, read_bytes_refines s.write_buffer n v)

write_loop-output :
    (rs : List Send) (s : Stream) → Bounds.IsValid s.write_buffer → Outputs s (write_loop rs s)
unfolding Outputs write_loop
write_loop-output [] s v = (refl, v)
write_loop-output (send_fails unset ∷ rs) s v = ground arith
write_loop-output (send_fails would_block ∷ rs) s v = ground arith
write_loop-output (send_fails other ∷ rs) s v = ground arith
write_loop-output (accepts room ∷ rs) s v =
    let n = taken room s in
    let b = (read_bytes s.write_buffer n).1 in
    let t = record s { sent = s.sent ++ take n (contents s.write_buffer); write_buffer = b } in
    let moved = read_bytes-IsValid s.write_buffer n v in
    let round = output-round s n v (omega arith) in
    let ih = write_loop-output rs t moved in
    if_elim (Outputs s) (readable_bytes s.write_buffer == 0) (λ _. (refl, v))
      (λ _.
        if_elim (Outputs s) (n == 0) (λ _. (refl, v))
          (λ _.
            if_elim (Outputs s) (read_bytes s.write_buffer n).0 (λ _. (ih.0 ∙ round, ih.1))
              (λ _. (round, moved))))

finish_write-output :
    (s : Stream)
    → ((finish_write s).sent ≡ s.sent) × ((finish_write s).write_buffer ≡ s.write_buffer)
unfolding finish_write
finish_write-output s = ground arith

-- On a stream whose write buffer is in bounds, `handleWrite` keeps the output, which is what the
-- socket has taken followed by what waits, whether it succeeds or fails.
pub output-handle_write :
    (s : Stream) → Bounds.IsValid s.write_buffer → output (handle_write s).1 ≡ output s
unfolding handle_write Outputs
output-handle_write s v =
    let w = write_loop-output s.sends s v in
    let f = finish_write-output (write_loop s.sends s).1 in
    if_elim (λ (r : Bool × Stream). output r.1 ≡ output s) (write_loop s.sends s).0
      (λ _. ground (arith, w.0, f.0, f.1)) (λ _. w.0)

-- Where `handleWrite` returns 0 and leaves nothing to write, no write callback is left waiting.
pub handle_write_done :
    (s : Stream)
    → (handle_write s).0 ≡ true
    → readable_bytes (handle_write s).1.write_buffer ≡ 0
    → (handle_write s).1.write_callback ≡ none
unfolding handle_write finish_write
handle_write_done s h e = ground arith

pub output-close : (s : Stream) → output (close s) ≡ output s
unfolding close
output-close s = ground arith

output-add_io_state : (s : Stream) → output (add_io_state write_event s) ≡ output s
unfolding add_io_state
output-add_io_state s = ground arith

output-start_write :
    (s : Stream) → Bounds.IsValid s.write_buffer → output (start_write s).1 ≡ output s
unfolding start_write
output-start_write s v = ground (
  arith,
  output-handle_write s v,
  output-close (handle_write s).1,
  output-add_io_state (handle_write s).1,
)

-- What a write adds to the output, by its result: the data where it is 0, or -4, where the socket
-- fails after the append.
abbrev pub added : ℤ → Bytes → Bytes
added (pos n) bytes = bytes
added (negsuc zero) bytes = []
added (negsuc (suc zero)) bytes = []
added (negsuc (suc (suc zero))) bytes = []
added (negsuc (suc (suc (suc n)))) bytes = bytes

added_zero : (code : ℤ) (bytes : Bytes) → is_nonzero code ≡ false → added code bytes ≡ bytes
added_zero (pos n) bytes h = refl
added_zero (negsuc n) bytes h = absurd (ground arith)

pub start_write-added : (s : Stream) (bytes : Bytes) → added (start_write s).0 bytes ≡ bytes
unfolding start_write
start_write-added s bytes = ground arith

append-contents :
    (b : Buffer) (bytes : Bytes)
    → Bounds.IsValid b
    → (append b bytes).0 ≡ true
    → contents (append b bytes).1 ≡ contents b ++ bytes
append-contents b bytes v e = ground (arith, append_refines b bytes v)

append_fails-contents :
    (b : Buffer) (bytes : Bytes)
    → Bounds.IsValid b
    → (append b bytes).0 ≡ false
    → contents (append b bytes).1 ≡ contents b
append_fails-contents b bytes v e = ground (arith, append_refines b bytes v)

Adds : Bytes → Stream → ℤ × Stream → Type 0
Adds bytes s r = output r.1 ≡ output s ++ added r.0 bytes

output-just_write_bytes_to_buff :
    (bytes : Bytes) (s : Stream)
    → Bounds.IsValid s.write_buffer
    → Adds bytes s (just_write_bytes_to_buff bytes s)
unfolding just_write_bytes_to_buff Adds
output-just_write_bytes_to_buff bytes s v =
    let b = (append s.write_buffer bytes).1 in
    if_elim (Adds bytes s) s.closed (λ _. sym (append-nil (output s)))
      (λ _.
        if_elim (Adds bytes s) (length bytes == 0) (λ _. sym (append-nil (output s)))
          (λ _.
            if_elim (Adds bytes s) (append s.write_buffer bytes).0
              (λ e.
                ap (λ l. s.sent ++ l) (append-contents s.write_buffer bytes v e)
                ∙ sym (append_assoc s.sent (contents s.write_buffer) bytes))
              (λ e.
                output-close (record s { write_buffer = b })
                ∙ ap (λ l. s.sent ++ l) (append_fails-contents s.write_buffer bytes v e)
                ∙ sym (append-nil (output s)))))

write_buffer-IsValid :
    (bytes : Bytes) (s : Stream)
    → Bounds.IsValid s.write_buffer
    → Bounds.IsValid (just_write_bytes_to_buff bytes s).1.write_buffer
unfolding just_write_bytes_to_buff close
write_buffer-IsValid bytes s v = ground (arith, append-IsValid s.write_buffer bytes v)

-- On a stream whose write buffer is in bounds, every byte that `writeBytes` takes goes behind the
-- output so far, in order, whatever the socket takes meanwhile: the data is added where the result
-- is 0 or -4, and nothing is where the write is refused with -1, -2 or -3.
pub output-write_bytes :
    (bytes : Bytes) (s : Stream)
    → Bounds.IsValid s.write_buffer
    → output (write_bytes bytes s).1 ≡ output s ++ added (write_bytes bytes s).0 bytes
unfolding write_bytes Adds
output-write_bytes bytes s v =
    let j = just_write_bytes_to_buff bytes s in
    let h = output-just_write_bytes_to_buff bytes s v in
    if_elim (Adds bytes s) (is_nonzero j.0) (λ _. h)
      (λ e.
        output-start_write j.1 (write_buffer-IsValid bytes s v)
        ∙ h
        ∙ ap (λ l. output s ++ l) (added_zero j.0 bytes e ∙ sym (start_write-added j.1 bytes)))
