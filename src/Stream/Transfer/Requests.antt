-- ===== src/Stream/Transfer/Requests.antt =====
-- The read requests of tornado/IOStream.h: what their callbacks get, from the local buffer or when
-- an event brings the bytes.
use simplesvr.Prelude.{
  ℕ, ◌+◌, ◌<◌, ◌≤◌, ◌≡◌, ◌≢◌, refl, Bool, true, false, not, ◌&&◌, [], ◌∷◌, some, arith, Bytes,
  length, take, drop, ltb, leb, if_elim, Option-cases, inl, inr,
}
use simplesvr.Prelude.Int.{pos}
use simplesvr.Buffer.{readable_bytes, contents, read_bytes_to_string, find}
use simplesvr.Buffer.Bounds
use simplesvr.Buffer.Bounds.{length-contents, read_bytes_to_string-IsValid}
use simplesvr.Buffer.Queue.{read_bytes_to_string_refines}
use simplesvr.Buffer.Search.{Occurs, find_first, Occurs-le}
use simplesvr.Stream.{Stream, add_callback, run_read}
use simplesvr.Stream.Reading.{
  deliver_count, deliver_delimited, deliver_available, deliver_read, handle_read,
  read_to_buffer_loop, is_empty,
}
use simplesvr.Stream.Transfer.Delivery.{SameOutput}
use simplesvr.Stream.Api.{serve, read_bytes, read_until, not_reading}

-- A request for `n` bytes was served: its callback gets the first `n` unread bytes by way of the
-- loop, the others stay, and nothing else has changed.
pub record Served (cb n : ℕ) (s t : Stream) : Type 0 where
  pub posted : t.calls ≡ add_callback (run_read cb (take n (contents s.read_buffer))) ∷ s.calls
  pub kept : contents t.read_buffer ≡ drop n (contents s.read_buffer)
  pub idle : not_reading t ≡ not_reading s
  pub reads : Bounds.IsValid t.read_buffer
  pub is_open : t.closed ≡ s.closed
  pub output : SameOutput s t

serve-Served :
    (n cb : ℕ) (s : Stream)
    → Bounds.IsValid s.read_buffer
    → n ≤ readable_bytes s.read_buffer
    → ((serve n (some cb) s).0 ≡ pos 0) × Served cb n s (serve n (some cb) s).1
unfolding serve
serve-Served n cb s v h =
    let r = read_bytes_to_string_refines s.read_buffer n [] v in
    let kept = read_bytes_to_string-IsValid s.read_buffer n [] v in
    ground (arith, length-contents s.read_buffer v, r, kept)

-- With no read pending and a read buffer in bounds that holds the bytes asked for, of which there is
-- at least one, `readBytes` is served at once: its callback gets the first of the unread bytes by
-- way of the loop, and the others stay.
pub read_bytes_local :
    (n cb : ℕ) (s : Stream)
    → Bounds.IsValid s.read_buffer
    → not_reading s ≡ true
    → 0 < n
    → n ≤ readable_bytes s.read_buffer
    → (t : Stream) × (read_bytes n (some cb) s ≡ some (pos 0, t)) × Served cb n s t
unfolding read_bytes
read_bytes_local n cb s v idle h k =
    let served = serve-Served n cb s v k in
    ((serve n (some cb) s).1, ground (arith, served.0), served.1)

is_empty-ne : (d : Bytes) → d ≢ [] → is_empty d ≡ false
is_empty-ne [] h = absurd (h refl)
is_empty-ne (x ∷ d) h = refl

-- With no read pending and a read buffer in bounds that holds the delimiter, which is not empty, at
-- `j`, `readUntil` is served at once: its callback gets the bytes up to and with the first
-- occurrence that the search finds, which is at or before `j`, and the others stay.
pub read_until_local :
    (d : Bytes) (cb j : ℕ) (s : Stream)
    → Bounds.IsValid s.read_buffer
    → not_reading s ≡ true
    → d ≢ []
    → Occurs d (contents s.read_buffer) j
    → (i : ℕ) × (t : Stream) × (i ≤ j)
      × Occurs d (contents s.read_buffer) i
      × (read_until d (some cb) s ≡ some (pos 0, t))
      × Served cb (i + length d) s t
unfolding read_until
read_until_local d cb j s v idle ne o =
    let (i, found, le, occurs) = find_first s.read_buffer d j ne o in
    let fits = Occurs-le (contents s.read_buffer) d i ne occurs in
    let served =
      serve-Served (i + length d) cb s v (omega (arith, fits, length-contents s.read_buffer v)) in
    (
      i,
      (serve (i + length d) (some cb) s).1,
      le,
      occurs,
      ground (arith, found, served.0, is_empty-ne d ne),
      served.1,
    )

-- The count that the reader waits for is not there yet.
abbrev IsWaiting : Stream → Type 0
IsWaiting t = ltb 0 t.read_bytes && leb t.read_bytes (readable_bytes t.read_buffer) ≡ false

-- A successful result leaves no count unserved.
abbrev Complete : Bool × Stream → Type 0
Complete r = r.0 ≡ true → IsWaiting r.1

deliver_count-Complete : (s : Stream) → Complete (deliver_count s)
unfolding deliver_count
deliver_count-Complete s h = ground arith

deliver_delimited-Complete : (s : Stream) → IsWaiting s → Complete (deliver_delimited s)
unfolding deliver_delimited read_bytes_to_string
deliver_delimited-Complete s w = elim (Option-cases (find s.read_buffer s.read_delimiter)) [
  | inl e ↦ rw (e, deliver_delimited) (λ _. w)
  | inr (i, e) ↦ rw (e, deliver_delimited) (λ h. ground arith)
]

deliver_available-Complete : (s : Stream) → IsWaiting s → Complete (deliver_available s)
unfolding deliver_available read_bytes_to_string
deliver_available-Complete s w h = ground arith

deliver_read-Complete : (s : Stream) → Complete (deliver_read s)
unfolding deliver_read
deliver_read-Complete s =
    if_elim Complete (ltb 0 s.read_bytes && leb s.read_bytes (readable_bytes s.read_buffer))
      (λ _. deliver_count-Complete s)
      (λ w.
        if_elim Complete (not (is_empty s.read_delimiter)) (λ _. deliver_delimited-Complete s w)
          (λ _.
            if_elim Complete s.read_until_close (λ _. deliver_available-Complete s w) (λ _ _. w)))

-- Where `handleRead` returns 0, no count of bytes is left waiting that the read buffer could serve.
pub handle_read_complete :
    (s : Stream)
    → (handle_read s).0 ≡ true
    → let t = (handle_read s).1 in
      ltb 0 t.read_bytes && leb t.read_bytes (readable_bytes t.read_buffer) ≡ false
unfolding handle_read
handle_read_complete s h =
    let rs = (read_to_buffer_loop s.receives s.read_buffer).1 in
    let b = (read_to_buffer_loop s.receives s.read_buffer).2 in
    if_elim Complete (read_to_buffer_loop s.receives s.read_buffer).0
      (λ _. deliver_read-Complete (record s { receives = rs; read_buffer = b }))
      (λ _ e. absurd (ground (arith, e))) h
