-- ===== src/Web/Flush.antt =====
-- `RequestHandler::flush` of tornado/Web.cpp: what an answer without a body does.
use simplesvr.Prelude.{ℕ, ◌≡◌, ◌<◌, length, refl, true, false, [], none, some, arith, Bytes}
use simplesvr.Prelude.Int.{ℤ, negsuc}
use simplesvr.Buffer.{append}
use simplesvr.Stream.Api.{just_write_bytes_to_buff, write_bytes, write_bytes_with}
use simplesvr.Http.Connection.{Connection, write, write_to_buff}
use simplesvr.Web.{to_str, answer_head, send_answer}

-- A write of nothing is refused before the socket is tried, and its callback is dropped.
write_nothing :
    (c : Connection)
    → c.stream.closed ≡ false
    → c.stream.write_callback ≡ none
    → (r : ℤ) × (write [] c
        ≡ some (r, record c { stream = record (c.stream) { write_callback = none } }))
unfolding write write_bytes_with write_bytes just_write_bytes_to_buff
write_nothing c open_ free = (negsuc 1, ground arith)

pub buffered :
    (head : Bytes) (c : Connection)
    → c.stream.closed ≡ false
    → 0 < length head
    → (append c.stream.write_buffer head).0 ≡ true
    → (write_to_buff head c).1 ≡ record c {
      stream = record (c.stream) { write_buffer = (append c.stream.write_buffer head).1 };
    }
unfolding write_to_buff just_write_bytes_to_buff
buffered head c open_ some_ fits = ground arith

pub length-answer_head :
    (status : ℤ) (message date : Bytes) (size : ℕ)
    → 0 < length (answer_head status message date size)
unfolding answer_head
length-answer_head status message date size = omega arith

-- On an open stream with no write callback, whose write buffer takes the head, the answer to a known
-- status with an empty body is not sent: the socket gets nothing, the loop is told nothing, and no
-- write callback is left to run.
pub send_answer_silent :
    (date message : Bytes) (status : ℤ) (c : Connection)
    → to_str status ≡ some message
    → c.stream.closed ≡ false
    → c.stream.write_callback ≡ none
    → (append c.stream.write_buffer (answer_head status message date 0)).0 ≡ true
    → (c' : Connection) × (send_answer date status [] c ≡ some c')
      × (c'.stream.calls ≡ c.stream.calls)
      × (c'.stream.sent ≡ c.stream.sent)
      × (c'.stream.write_callback ≡ none)
unfolding send_answer
send_answer_silent date message status c m open_ free fits =
    let head = answer_head status message date 0 in
    let b = (append c.stream.write_buffer head).1 in
    let c1 : Connection = record c { stream = record (c.stream) { write_buffer = b } } in
    let kept = buffered head c open_ (length-answer_head status message date 0) fits in
    let (r, done) = write_nothing c1 open_ free in
    (
      record c1 { stream = record (c1.stream) { write_callback = none } },
      rw (m, kept, done),
      refl,
      refl,
      refl,
    )
