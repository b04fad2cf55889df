-- ===== src/Web/Sending.antt =====
-- `finish` and `send_error` of tornado/Web.cpp: where no write is pending, they go through.
use simplesvr.Prelude.{
  ℕ, ◌≡◌, refl, ap, ◌∙◌, true, false, [], ◌++◌, none, some, arith, Bytes, codes, length,
  Option-cases, inl, inr,
}
use simplesvr.Prelude.Int.{ℤ}
use simplesvr.Prelude.Partial.{◌>>=◌, >>=-eq-some}
use simplesvr.Buffer.{append}
use simplesvr.Stream.{Stream, close}
use simplesvr.Stream.Api.{just_write_bytes_to_buff, write_bytes_with}
use simplesvr.Http.Connection.{Connection, write, write_to_buff}
use simplesvr.Web.{
  Handler, send_error, flush, finish_handler, finish_conn, write_chunk, to_str, answer_head,
  send_answer, decimal,
}

-- A handler that has answered.
pub record IsAnswered (status : ℤ) (h : Handler) : Type 0 where
  pub finished : h.finished ≡ true
  pub status_code : h.status_code ≡ status
  pub sent : h.buff ≡ []

flush_lem :
    (date : Bytes) (h : Handler) (c : Connection) {h' : Handler}
    → h.conn ≡ some c
    → flush date h ≡ some h'
    → (h'.buff ≡ []) × (h'.status_code ≡ h.status_code) × (h'.finished ≡ h.finished)
unfolding flush
flush_lem date h c {h'} e done = elim (Option-cases (send_answer date h.status_code h.buff c)) [
  | inl f ↦ absurd (ground arith)
  | inr (c', f) ↦ ground arith
]

finish_conn_lem :
    (now : ℕ) (h : Handler) {h' : Handler}
    → finish_conn now h ≡ some h'
    → (h'.buff ≡ h.buff) × (h'.status_code ≡ h.status_code) × (h'.finished ≡ h.finished)
finish_conn_lem now h done = ground arith

write_chunk_lem :
    (chunk : Bytes) (h : Handler)
    → ((write_chunk chunk h).conn ≡ h.conn)
      × ((write_chunk chunk h).status_code ≡ h.status_code)
      × ((write_chunk chunk h).finished ≡ h.finished)
unfolding write_chunk
write_chunk_lem chunk h = ground arith

-- What `finish` leaves, where it does not fail.
finish_handler_lem :
    (date : Bytes) (now : ℕ) (h : Handler) (c : Connection) {h' : Handler}
    → h.finished ≡ false
    → h.conn ≡ some c
    → finish_handler date now h ≡ some h'
    → (h'.finished ≡ true) × (h'.status_code ≡ h.status_code) × (h'.buff ≡ [])
unfolding finish_handler
finish_handler_lem date now h c {h'} open_ e done =
    let begun = record h { finished = true } in
    let chain : (flush date begun >>= λ h1. finish_conn now h1) ≡ some h' = ground arith in
    let (h1, flushed, ends) = >>=-eq-some (flush date begun) (λ h1. finish_conn now h1) chain in
    let (empty, status, whole) = flush_lem date begun c e flushed in
    let (empty', status', whole') = finish_conn_lem now h1 ends in
    (whole' ∙ whole, status' ∙ status, empty' ∙ empty)

close-write_callback : (s : Stream) → s.write_callback ≡ none → (close s).write_callback ≡ none
unfolding close
close-write_callback s h = ground arith

write_to_buff-write_callback :
    (chunk : Bytes) (c : Connection)
    → c.stream.write_callback ≡ none
    → (write_to_buff chunk c).1.stream.write_callback ≡ none
unfolding write_to_buff just_write_bytes_to_buff
write_to_buff-write_callback chunk c free = ground (
  arith,
  close-write_callback
      (record (c.stream) { write_buffer = (append c.stream.write_buffer chunk).1 }),
)

write-some :
    (chunk : Bytes) (c : Connection)
    → c.stream.write_callback ≡ none
    → (r : ℤ × Connection) × (write chunk c ≡ some r)
unfolding write write_bytes_with
write-some chunk c free = elim (Option-cases (write chunk c)) [
  | inl e ↦ absurd (ground arith)
  | inr done ↦ done
]

send_answer-some :
    (date message body : Bytes) (status : ℤ) (c : Connection)
    → to_str status ≡ some message
    → c.stream.write_callback ≡ none
    → (c' : Connection) × (send_answer date status body c ≡ some c')
unfolding send_answer
send_answer-some date message body status c m free =
    let head = answer_head status message date (length body) in
    let (r, e) =
      write-some body (write_to_buff head c).1 (write_to_buff-write_callback head c free) in
    (r.1, rw (m, e) refl)

finish_handler-some :
    (date message : Bytes) (now : ℕ) (h : Handler) (c : Connection)
    → h.finished ≡ false
    → h.conn ≡ some c
    → to_str h.status_code ≡ some message
    → c.stream.write_callback ≡ none
    → (h' : Handler) × (finish_handler date now h ≡ some h')
unfolding finish_handler flush
finish_handler-some date message now h c open_ e m free =
    let (c', sent) = send_answer-some date message h.buff h.status_code c m free in
    elim (Option-cases (finish_handler date now h)) [
      | inl e' ↦ absurd (ground (arith, sent))
      | inr done ↦ done
    ]

-- On a connection that waits for no write, `send_error` for a known status goes through: the handler has
-- answered by that status.
pub send_error_lem :
    (date message : Bytes) (now : ℕ) (status : ℤ) (h : Handler) (c : Connection)
    → h.finished ≡ false
    → h.conn ≡ some c
    → to_str status ≡ some message
    → c.stream.write_callback ≡ none
    → (h' : Handler) × (send_error date now status h ≡ some h') × IsAnswered status h'
unfolding send_error
send_error_lem date message now status h c open_ e m free =
    let text =
      codes "<html><title>" ++ decimal status ++ codes ": " ++ message ++ codes "</title>" in
    let page = write_chunk text (record h { status_code = status }) in
    let (same, kept, whole) = write_chunk_lem text (record h { status_code = status }) in
    let (h', finishes) =
      finish_handler-some date message now page c (whole ∙ open_) (same ∙ e) (ap to_str kept ∙ m)
        free in
    let w = finish_handler_lem date now page c (whole ∙ open_) (same ∙ e) finishes in
    (h', rw m finishes, record { finished = w.0; status_code = w.1 ∙ kept; sent = w.2 })
