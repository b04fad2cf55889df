-- ===== src/Web/Completing.antt =====
-- An answer of tornado/Web.cpp that the socket takes at once, and the end of its connection.
use simplesvr.Prelude.{
  ℕ, ◌+◌, ◌<◌, ◌≤◌, ◌≡◌, refl, sym, ap, ◌∙◌, true, false, [], ◌∷◌, some, arith, length, Bytes,
  length-append, subst, Option, Option-cases, inl, inr, ◌++◌, append-nil, take_eq, drop,
}
use simplesvr.Prelude.Int.{ℤ, pos}
use simplesvr.Prelude.Partial.{◌>>=◌, >>=-eq-some}
use simplesvr.Buffer.{contents, append, readable_bytes, read_bytes}
use simplesvr.Buffer.Bounds.{append-IsValid, length-contents}
use simplesvr.Stream.{Stream, accepts, write_chunk_size, close}
use simplesvr.Stream.Writing.{write_loop, finish_write, handle_write}
use simplesvr.Stream.Api.{start_write, write_bytes_with}
use simplesvr.Stream.Calls.{closed-close}
use simplesvr.Stream.Transfer.Output.{output}
use simplesvr.Http.Connection
use simplesvr.Http.Connection.{Connection, write, write_to_buff, on_write_complete_callback}
use simplesvr.Web.Flush.{length-answer_head}
use simplesvr.Web.Answering.{
  CanWrite, append-fits, write_bytes-fits, with_head, write_head, error_text, error_answer,
}
use simplesvr.Web.{
  Handler, to_str, answer_head, send_answer, flush, finish_handler, write_chunk, send_error,
}

-- The socket takes the whole buffer in one call.
pub record TakesAll (s : Stream) : Type 0 where
  pub room : ℕ
  pub script : s.sends ≡ accepts room ∷ []
  pub fits : readable_bytes s.write_buffer ≤ room
  pub one_chunk : readable_bytes s.write_buffer ≤ write_chunk_size
  pub connected : s.connecting ≡ false

write_loop-all :
    (room : ℕ) (s : Stream)
    → readable_bytes s.write_buffer ≤ room
    → readable_bytes s.write_buffer ≤ write_chunk_size
    → ((write_loop (accepts room ∷ []) s).0 ≡ true)
      × (readable_bytes (write_loop (accepts room ∷ []) s).1.write_buffer ≡ 0)
unfolding write_loop read_bytes
write_loop-all room s h k = ground arith

start_write-all :
    (s : Stream)
    → TakesAll s
    → ((start_write s).0 ≡ pos 0) × (readable_bytes (start_write s).1.write_buffer ≡ 0)
unfolding start_write handle_write finish_write
start_write-all s a =
    let w = write_loop-all a.room s a.fits a.one_chunk in ground (arith, a.script, w, a.connected)

-- So it takes `n` bytes more behind what waits.
pub record Drains (n : ℕ) (s : Stream) : Type 0 where
  pub room : ℕ
  pub script : s.sends ≡ accepts room ∷ []
  pub fits : length (contents s.write_buffer) + n ≤ room
  pub one_chunk : length (contents s.write_buffer) + n ≤ write_chunk_size
  pub connected : s.connecting ≡ false

-- Nothing waits to be written.
abbrev IsDrained : Connection → Type 0
IsDrained c = readable_bytes c.stream.write_buffer ≡ 0

write-IsDrained :
    (bytes : Bytes) (c : Connection) {r : ℤ × Connection}
    → CanWrite (length bytes) c.stream
    → 0 < length bytes
    → Drains (length bytes) c.stream
    → write bytes c ≡ some r
    → IsDrained r.1
unfolding write write_bytes_with
write-IsDrained bytes c {r} can some_ d done =
    let s : Stream = record (c.stream) { write_callback = some on_write_complete_callback } in
    let fits = append-fits c.stream.write_buffer bytes can.writes can.room in
    let b = (append c.stream.write_buffer bytes).1 in
    let t : Stream = record s { write_buffer = b } in
    let runs = write_bytes-fits bytes s can.is_open some_ fits.0 in
    let size : readable_bytes b ≡ length (contents c.stream.write_buffer) + length bytes =
      sym (length-contents b (append-IsValid c.stream.write_buffer bytes can.writes))
      ∙ ap length fits.1
      ∙ length-append (contents c.stream.write_buffer) bytes in
    let all = start_write-all t (record {
      room = d.room;
      script = d.script;
      fits = omega (arith, size, d.fits);
      one_chunk = omega (arith, size, d.one_chunk);
      connected = d.connected;
    }) in
    ground (arith, runs, all, can.free)

send_answer-write :
    (date message body : Bytes) (status : ℤ) (c c1 : Connection)
    → to_str status ≡ some message
    → (write_to_buff (answer_head status message date (length body)) c).1 ≡ c1
    → send_answer date status body c ≡ (write body c1 >>= λ r. some r.1)
unfolding send_answer
send_answer-write date message body status c c1 m kept = rw (m, kept) refl

some_eq {ℓ} : {A : Type ℓ} {a b : A} → some a ≡ some b → a ≡ b
some_eq h = cc

close-write_buffer :
    (s : Stream) → readable_bytes s.write_buffer ≡ 0 → readable_bytes (close s).write_buffer ≡ 0
unfolding close
close-write_buffer s h = ground arith

send_answer-IsDrained :
    (date message body : Bytes) (status : ℤ) (c : Connection) {c' : Connection}
    → to_str status ≡ some message
    → 0 < length body
    → let head = answer_head status message date (length body) in
      CanWrite (length head + length body) c.stream
      → Drains (length head + length body) c.stream
      → send_answer date status body c ≡ some c'
      → IsDrained c'
unfolding send_answer
send_answer-IsDrained date message body status c {c'} m some_ can d done =
    let head = answer_head status message date (length body) in
    let (kept, next, first) =
      write_head head (length body) c can (length-answer_head status message date (length body)) in
    let c1 = with_head head c in
    let finish : ℤ × Connection → Option Connection = λ r. some r.1 in
    let chain : (write body c1 >>= finish) ≡ some c' =
      sym (send_answer-write date message body status c c1 m kept) ∙ done in
    let (r, runs, e) = >>=-eq-some (write body c1) finish chain in
    subst IsDrained (some_eq e) (
      write-IsDrained body c1 next some_
        (record {
          room = d.room;
          script = d.script;
          fits =
              omega (
                arith,
                ap length first,
                length-append (contents c.stream.write_buffer) head,
                d.fits,
              );
          one_chunk = omega (
            arith,
            ap length first,
            length-append (contents c.stream.write_buffer) head,
            d.one_chunk,
          );
          connected = d.connected;
        })
        runs)

-- Nothing left to write: `finish` closes the connection.
finish-IsDrained :
    (now : ℕ) (c : Connection)
    → IsDrained c
    → ((Connection.finish now c).stream.closed ≡ true) × IsDrained (Connection.finish now c)
unfolding Connection.finish
finish-IsDrained now c e = ground (arith, closed-close c.stream, close-write_buffer c.stream)

finish_handler-closed :
    (date message : Bytes) (now : ℕ) (h : Handler) (c : Connection) {h' : Handler}
    {last : Connection}
    → h.finished ≡ false
    → h.conn ≡ some c
    → to_str h.status_code ≡ some message
    → 0 < length h.buff
    → let head = answer_head h.status_code message date (length h.buff) in
      CanWrite (length head + length h.buff) c.stream
      → Drains (length head + length h.buff) c.stream
      → finish_handler date now h ≡ some h'
      → h'.conn ≡ some last
      → (last.stream.closed ≡ true) × IsDrained last
unfolding finish_handler flush
finish_handler-closed date message now h c {h'} {last} open_ e m some_ can d done held =
    elim (Option-cases (send_answer date h.status_code h.buff c)) [
      | inl f ↦ absurd (ground arith)
      | inr (c', f) ↦
          let dry = send_answer-IsDrained date message h.buff h.status_code c m some_ can d f in
          let ended = finish-IsDrained now c' dry in
          let same : Connection.finish now c' ≡ last = ground arith in
          subst (λ (k : Connection). (k.stream.closed ≡ true) × IsDrained k) same ended
    ]

send_error-runs :
    (date message : Bytes) (now : ℕ) (status : ℤ) (h : Handler) {h' : Handler}
    → to_str status ≡ some message
    → send_error date now status h ≡ some h'
    → finish_handler date now
        (write_chunk (error_text status message) (record h { status_code = status }))
      ≡ some h'
unfolding send_error
send_error-runs date message now status h m done =
    sym (
      ap
        (λ o. o >>= λ t.
          finish_handler date now
            (write_chunk (error_text status t) (record h { status_code = status })))
        m)
    ∙ done

-- Where the socket takes the answer at once, `send_error` sends it and closes the connection.
pub send_error-closed :
    (date message : Bytes) (now : ℕ) (status : ℤ) (h : Handler) (c : Connection) {h' : Handler}
    {last : Connection}
    → h.finished ≡ false
    → h.buff ≡ []
    → h.conn ≡ some c
    → to_str status ≡ some message
    → CanWrite (length (error_answer status message date)) c.stream
    → Drains (length (error_answer status message date)) c.stream
    → send_error date now status h ≡ some h'
    → h'.conn ≡ some last
    → (last.stream.closed ≡ true) × (last.stream.sent ≡ output last.stream)
unfolding send_error write_chunk
send_error-closed date message now status h c {h'} {last} open_ empty e m can d done held =
    let text = error_text status message in
    let page : Handler = record h { status_code = status; buff = text } in
    let head = answer_head status message date (length text) in
    let size = length-append head text in
    let same : write_chunk text (record h { status_code = status }) ≡ page = ground arith in
    let runs : finish_handler date now page ≡ some h' =
      ap (finish_handler date now) (sym same) ∙ send_error-runs date message now status h m done in
    let (closes, dry) =
      finish_handler-closed date message now page c {h' = h'} {last = last} open_ e m (omega arith)
        (record {
          is_open = can.is_open;
          free = can.free;
          writes = can.writes;
          room = omega (arith, can.room, size);
        })
        (record {
          room = d.room;
          script = d.script;
          fits = omega (arith, d.fits, size);
          one_chunk = omega (arith, d.one_chunk, size);
          connected = d.connected;
        })
        runs held in
    (
      closes,
      sym (
          ap (λ l. last.stream.sent ++ l)
            (take_eq (readable_bytes last.stream.write_buffer) 0
              (drop last.stream.write_buffer.read_index last.stream.write_buffer.mem) dry)
          ∙ append-nil last.stream.sent),
    )
