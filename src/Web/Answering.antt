-- ===== src/Web/Answering.antt =====
-- What the answers of tornado/Web.cpp put on the socket.
use simplesvr.Prelude.{
  ℕ, ◌+◌, ◌<◌, ◌≤◌, ◌≡◌, refl, sym, ap, ◌∙◌, true, false, [], ◌++◌, none, some, arith, length,
  append_assoc, if◌then◌else◌, length-append, Bytes, codes, if_elim,
}
use simplesvr.Prelude.Int.{ℤ, is_nonzero}
use simplesvr.Buffer.{Buffer, contents, append}
use simplesvr.Buffer.Bounds
use simplesvr.Buffer.Bounds.{append-IsValid}
use simplesvr.Buffer.Queue.{append_refines, buff_len-append}
use simplesvr.Stream.{Stream}
use simplesvr.Stream.Api.{
  writing, just_write_bytes_to_buff, start_write, write_bytes, write_bytes_with,
}
use simplesvr.Stream.Transfer.Output.{
  output, added, output-write_bytes, output-close, start_write-added,
}
use simplesvr.Http.Connection
use simplesvr.Http.Connection.{Connection, write, write_to_buff, on_write_complete_callback}
use simplesvr.Http.Answers.{IsServed, finish_serves}
use simplesvr.Web.Flush.{buffered, length-answer_head}
use simplesvr.Web.{
  Handler, to_str, answer_head, send_answer, flush, finish_handler, write_chunk, send_error,
  decimal,
}

-- An open stream that waits for no write, with room for `n` bytes more to write.
pub record CanWrite (n : ℕ) (s : Stream) : Type 0 where
  pub is_open : s.closed ≡ false
  pub free : s.write_callback ≡ none
  pub writes : Bounds.IsValid s.write_buffer
  pub room : length (contents s.write_buffer) + n ≤ s.write_buffer.buff_len

pub append-fits :
    (b : Buffer) (bytes : Bytes)
    → Bounds.IsValid b
    → length (contents b) + length bytes ≤ b.buff_len
    → ((append b bytes).0 ≡ true) × (contents (append b bytes).1 ≡ contents b ++ bytes)
append-fits b bytes v h = ground (arith, append_refines b bytes v)

pub write_bytes-fits :
    (bytes : Bytes) (s : Stream)
    → s.closed ≡ false
    → 0 < length bytes
    → (append s.write_buffer bytes).0 ≡ true
    → write_bytes bytes s
      ≡ start_write (record s { write_buffer = (append s.write_buffer bytes).1 })
unfolding write_bytes just_write_bytes_to_buff
write_bytes-fits bytes s open_ some_ fits = ground arith

-- A write with a callback, where there is room, adds its bytes to the output, whatever becomes of the
-- socket.
write-output :
    (bytes : Bytes) (c : Connection)
    → CanWrite (length bytes) c.stream
    → 0 < length bytes
    → (r : ℤ × Connection) × (write bytes c ≡ some r)
      × (output r.1.stream ≡ output c.stream ++ bytes)
unfolding write write_bytes_with
write-output bytes c can some_ =
    let s : Stream = record (c.stream) { write_callback = some on_write_complete_callback } in
    let fits = append-fits c.stream.write_buffer bytes can.writes can.room in
    let t : Stream = record s { write_buffer = (append s.write_buffer bytes).1 } in
    let runs = write_bytes-fits bytes s can.is_open some_ fits.0 in
    let adds =
      output-write_bytes bytes s can.writes
      ∙ ap (λ r. output s ++ added r.0 bytes) runs
      ∙ ap (λ l. output s ++ l) (start_write-added t bytes) in
    let r = write_bytes bytes s in
    let u : Stream = if is_nonzero r.0 then record (r.1) { write_callback = none } else r.1 in
    (
      (r.0, record c { stream = u }),
      ground (arith, can.free),
      if_elim (λ w. output w ≡ output c.stream ++ bytes) (is_nonzero r.0) (λ _. adds) (λ _. adds),
    )

-- The connection with the head in its buffer.
abbrev pub with_head : Bytes → Connection → Connection
with_head head c = record c {
  stream = record (c.stream) { write_buffer = (append c.stream.write_buffer head).1 };
}

pub write_head :
    (head : Bytes) (n : ℕ) (c : Connection)
    → CanWrite (length head + n) c.stream
    → 0 < length head
    → ((write_to_buff head c).1 ≡ with_head head c)
      × CanWrite n (with_head head c).stream
      × (contents (with_head head c).stream.write_buffer ≡ contents c.stream.write_buffer ++ head)
write_head head n c can some_ =
    let first = append-fits c.stream.write_buffer head can.writes (omega (arith, can.room)) in
    (
      buffered head c can.is_open some_ first.0,
      record {
        is_open = can.is_open;
        free = can.free;
        writes = append-IsValid c.stream.write_buffer head can.writes;
        room = omega (
          arith,
          ap length first.1,
          length-append (contents c.stream.write_buffer) head,
          buff_len-append c.stream.write_buffer head,
          can.room,
        );
      },
      first.1,
    )

-- Head and body go behind the output, the head first.
send_answer-output :
    (date message body : Bytes) (status : ℤ) (c : Connection)
    → to_str status ≡ some message
    → 0 < length body
    → let head = answer_head status message date (length body) in
      CanWrite (length head + length body) c.stream
      → (c' : Connection) × (send_answer date status body c ≡ some c')
        × (output c'.stream ≡ output c.stream ++ (head ++ body))
unfolding send_answer
send_answer-output date message body status c m some_ can =
    let head = answer_head status message date (length body) in
    let (kept, next, first) =
      write_head head (length body) c can (length-answer_head status message date (length body)) in
    let (r, done, adds) = write-output body (with_head head c) next some_ in
    (
      r.1,
      rw (m, kept, done) refl,
      adds
          ∙ ap (λ l. (c.stream.sent ++ l) ++ body) first
          ∙ ap (λ l. l ++ body)
              (sym (append_assoc c.stream.sent (contents c.stream.write_buffer) head))
          ∙ append_assoc (output c.stream) head body,
    )

-- Closed or with output to write, and the output has grown by `bytes`.
pub record HasAnswered (bytes : Bytes) (before : Stream) (h : Handler) : Type 0 where
  pub finished : h.finished ≡ true
  pub conn : Connection
  pub holds : h.conn ≡ some conn
  pub answer : output conn.stream ≡ output before ++ bytes
  pub served : IsServed conn

finish-output :
    (now : ℕ) (c : Connection) → output (Connection.finish now c).stream ≡ output c.stream
unfolding Connection.finish
finish-output now c =
    if_elim (λ (t : Connection). output t.stream ≡ output c.stream) (writing c.stream) (λ _. refl)
      (λ _. output-close c.stream)

pub finish_handler-output :
    (date message : Bytes) (now : ℕ) (h : Handler) (c : Connection)
    → h.finished ≡ false
    → h.conn ≡ some c
    → to_str h.status_code ≡ some message
    → 0 < length h.buff
    → let head = answer_head h.status_code message date (length h.buff) in
      CanWrite (length head + length h.buff) c.stream
      → (h' : Handler) × (finish_handler date now h ≡ some h')
        × HasAnswered (head ++ h.buff) c.stream h'
unfolding finish_handler flush
finish_handler-output date message now h c open_ e m some_ can =
    let (c', sent, adds) = send_answer-output date message h.buff h.status_code c m some_ can in
    let last = Connection.finish now c' in
    (
      record h { finished = true; buff = []; conn = some last },
      ground (arith, sent),
      record {
        finished = refl;
        conn = last;
        holds = refl;
        answer = finish-output now c' ∙ adds;
        served = (finish_serves now c' c'.stream).0;
      },
    )

-- The page of `send_error`.
abbrev pub error_text : ℤ → Bytes → Bytes
error_text status message =
    codes "<html><title>" ++ decimal status ++ codes ": " ++ message ++ codes "</title>"

-- The answer of `send_error`.
abbrev pub error_answer : ℤ → Bytes → Bytes → Bytes
error_answer status message date =
    answer_head status message date (length (error_text status message))
    ++ error_text status message

pub send_error-output :
    (date message : Bytes) (now : ℕ) (status : ℤ) (h : Handler) (c : Connection)
    → h.finished ≡ false
    → h.buff ≡ []
    → h.conn ≡ some c
    → to_str status ≡ some message
    → CanWrite (length (error_answer status message date)) c.stream
    → (h' : Handler) × (send_error date now status h ≡ some h')
      × HasAnswered (error_answer status message date) c.stream h'
unfolding send_error write_chunk
send_error-output date message now status h c open_ empty e m can =
    let text = error_text status message in
    let page : Handler = record h { status_code = status; buff = text } in
    let head = answer_head status message date (length text) in
    let sized : CanWrite (length head + length text) c.stream = record {
      is_open = can.is_open;
      free = can.free;
      writes = can.writes;
      room = omega (arith, can.room, length-append head text);
    } in
    let (h', done, answered) =
      finish_handler-output date message now page c open_ e m (omega arith) sized in
    let same : write_chunk text (record h { status_code = status }) ≡ page = ground arith in
    (h', rw m (ap (finish_handler date now) same ∙ done), answered)
