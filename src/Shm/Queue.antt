-- ===== src/Shm/Queue.antt =====
-- `MsgQueue` of tornado/shm/mq.hpp: messages between processes. `boost::interprocess::message_queue` is a
-- parameter.
use simplesvr.Prelude.{
  ℕ, suc, ◌≤◌, ◌≡◌, refl, ap, ◌∙◌, Bool, true, false, ◌&&◌, List, [], ◌∷◌, ◌++◌, Option, none, some,
  arith, ltb, leb, ◌==◌, if◌then◌else◌, length, Bytes, Bool-cases, inl, inr,
}
use simplesvr.Prelude.Partial.{◌>>=◌, All}

pub record Message : Type 0 where
  pub priority : ℕ
  pub content : Bytes

-- A message goes behind those of its priority and of higher ones.
abbrev pub insert_message : Message → List Message → List Message
insert_message m [] = m ∷ []
insert_message m (x ∷ xs) =
    if leb m.priority x.priority then x ∷ insert_message m xs else m ∷ x ∷ xs

-- The queues by their names, and what the documentation says of the operations that are called.
-- `limits` are the greatest number and size of messages, `waiting` the messages in the order in which they
-- are received. `open_or_create` gives a new queue the limits that it is called with. A message above the
-- size, and a place for a message below it, throw; `none` is that exception.
pub record MessageQueues : Type 1 where
  pub Store : Type 0
  pub limits : Bytes → Store → Option (ℕ × ℕ)
  pub waiting : Bytes → Store → List Message
  pub open_or_create : Bytes → ℕ → ℕ → Store → Option Store
  pub try_send : Bytes → Message → Store → Option (Bool × Store)
  pub try_receive : Bytes → ℕ → Store → Option (Option Message × Store)
  pub created :
      (name : Bytes) (num size : ℕ) (s : Store) {s' : Store}
      → limits name s ≡ none
      → open_or_create name num size s ≡ some s'
      → (limits name s' ≡ some (num, size)) × (waiting name s' ≡ [])
  pub opened :
      (name : Bytes) (num size : ℕ) (s : Store) {l : ℕ × ℕ}
      → limits name s ≡ some l
      → open_or_create name num size s ≡ some s
  pub sent :
      (name : Bytes) (m : Message) (s : Store) {num size : ℕ}
      → limits name s ≡ some (num, size)
      → length m.content ≤ size
      → (s' : Store) × (try_send name m s ≡ some (ltb (length (waiting name s)) num, s'))
        × (limits name s' ≡ some (num, size))
        × (waiting name s' ≡ (
            if ltb (length (waiting name s)) num
            then insert_message m (waiting name s)
            else waiting name s))
  pub received :
      (name : Bytes) (room : ℕ) (s : Store) {num size : ℕ}
      → limits name s ≡ some (num, size)
      → size ≤ room
      → (s' : Store) × (try_receive name room s
          ≡ some (elim (waiting name s) [ [] ↦ none | x ∷ xs ↦ some x ], s'))
        × (limits name s' ≡ some (num, size))
        × (waiting name s' ≡ elim (waiting name s) [ [] ↦ [] | x ∷ xs ↦ xs ])

pub data Op : Type 0 where
  sends : Bytes → Op
  receives : ℕ → Op

pub data Reply : Type 0 where
  accepted : Bool → Reply
  got : Option Bytes → Reply

-- The specification: a queue of at most `num` messages, the oldest first.
abbrev reply_of : ℕ → Op → List Bytes → Reply
reply_of num (sends content) ms = accepted (ltb (length ms) num)
reply_of num (receives len) ms = got (elim ms [ [] ↦ none | m ∷ rest ↦ some m ])

abbrev effect_of : ℕ → Op → List Bytes → List Bytes
effect_of num (sends content) ms = if ltb (length ms) num then ms ++ (content ∷ []) else ms
effect_of num (receives len) ms = elim ms [ [] ↦ [] | m ∷ rest ↦ rest ]

unfoldable pub replies : ℕ → List Op → List Bytes → List Reply
replies num [] ms = []
replies num (op ∷ ops) ms = reply_of num op ms ∷ replies num ops (effect_of num op ms)

-- No message is longer than the queue allows, and no place for one shorter.
abbrev Fits : ℕ → Op → Type 0
Fits size (sends content) = length content ≤ size
Fits size (receives len) = size ≤ len

-- The waiting messages have priority 0.
abbrev plain : List Bytes → List Message
plain [] = []
plain (m ∷ ms) = record { priority = 0; content = m } ∷ plain ms

length-plain : (ms : List Bytes) → length (plain ms) ≡ length ms
length-plain [] = refl
length-plain (m ∷ ms) = ap suc (length-plain ms)

insert-plain :
    (content : Bytes) (ms : List Bytes)
    → insert_message (record { priority = 0; content = content }) (plain ms)
      ≡ plain (ms ++ (content ∷ []))
insert-plain content [] = refl
insert-plain content (m ∷ ms) =
    ap (λ l. record { priority = 0; content = m } ∷ l) (insert-plain content ms)

room-plain :
    (num : ℕ) (content : Bytes) (ms : List Bytes)
    → (if ltb (length ms) num
        then insert_message (record { priority = 0; content = content }) (plain ms)
        else plain ms)
      ≡ plain (if ltb (length ms) num then ms ++ (content ∷ []) else ms)
room-plain num content ms = elim (Bool-cases (ltb (length ms) num)) [
  | inl e ↦ rw e (insert-plain content ms)
  | inr e ↦ rw e refl
]

module _ (q : MessageQueues) where
  open q use {
    Store, limits, waiting, open_or_create, try_send, try_receive, created, opened, sent, received,
  }

  -- The assertion on the limits.
  abbrev checked : ℕ → ℕ → ℕ × ℕ → Store → Option Store
  checked num size l s = if (l.0 == num) && (l.1 == size) then some s else none

  -- `MsgQueue::MsgQueue`, with `open_only` or `open_or_create`. `none` is a failed assertion, or an
  -- exception of `open_only`.
  unfoldable pub open_queue : Bytes → ℕ → ℕ → Bool → Store → Option Store
  open_queue name num size create s =
      if create
      then (do s' ← open_or_create name num size s; l ← limits name s'; checked num size l s')
      else (do l ← limits name s; checked num size l s)

  -- `MsgQueue::send`: whether there was room. Every message has priority 0.
  unfoldable pub send : Bytes → Bytes → Store → Option (Bool × Store)
  send name content s = try_send name (record { priority = 0; content = content }) s

  -- `MsgQueue::receive` into `len` bytes: the message, if there is one.
  unfoldable pub receive : Bytes → ℕ → Store → Option (Option Bytes × Store)
  receive name len s = do
    r ← try_receive name len s
    some (elim r.0 [ none ↦ none | some m ↦ some m.content ], r.1)

  unfoldable pub step : Bytes → Op → Store → Option (Reply × Store)
  step name (sends content) s = do r ← send name content s; some (accepted r.0, r.1)
  step name (receives len) s = do r ← receive name len s; some (got r.0, r.1)

  unfoldable pub run : Bytes → List Op → Store → Option (List Reply × Store)
  run name [] s = some ([], s)
  run name (op ∷ ops) s = do
    r ← step name op s
    rest ← run name ops r.1
    some (r.0 ∷ rest.0, rest.1)

  step-reply :
      (name : Bytes) (num size : ℕ) (op : Op) (ms : List Bytes) (s : Store)
      → limits name s ≡ some (num, size)
      → waiting name s ≡ plain ms
      → Fits size op
      → (s' : Store) × (step name op s ≡ some (reply_of num op ms, s'))
        × (limits name s' ≡ some (num, size))
        × (waiting name s' ≡ plain (effect_of num op ms))
  unfolding step send receive
  step-reply name num size (sends content) ms s limited held fits =
      let m : Message = record { priority = 0; content = content } in
      let (s', runs, kept, after) = sent name m s limited fits in
      let same : length (waiting name s) ≡ length ms = ap length held ∙ length-plain ms in
      (
        s',
        rw (runs, same) refl,
        kept,
        after ∙ rw (held, length-plain ms) (room-plain num content ms),
      )
  step-reply name num size (receives len) [] s limited held fits =
      let (s', runs, kept, after) = received name len s limited fits in
      (s', rw runs (rw held refl), kept, after ∙ rw held refl)
  step-reply name num size (receives len) (m ∷ ms) s limited held fits =
      let (s', runs, kept, after) = received name len s limited fits in
      (s', rw runs (rw held refl), kept, after ∙ rw held refl)

  run-replies :
      (name : Bytes) (num size : ℕ) (ops : List Op) (ms : List Bytes) (s : Store)
      → limits name s ≡ some (num, size)
      → waiting name s ≡ plain ms
      → All (Fits size) ops
      → (s' : Store) × (run name ops s ≡ some (replies num ops ms, s'))
  unfolding run replies
  run-replies name num size [] ms s limited held fits = (s, refl)
  run-replies name num size (op ∷ ops) ms s limited held fits =
      let (s1, runs, limited', held') = step-reply name num size op ms s limited held fits.0 in
      let (s', rest) =
        run-replies name num size ops (effect_of num op ms) s1 limited' held' fits.1 in
      (s', rw (runs, rest) refl)

  open-again :
      (name : Bytes) (num size num' size' : ℕ) (create : Bool) (s : Store)
      → limits name s ≡ some (num, size)
      → open_queue name num' size' create s ≡ checked num' size' (num, size) s
  unfolding open_queue
  open-again name num size num' size' true s limited =
      rw (opened name num' size' s limited, limited) refl
  open-again name num size num' size' false s limited = rw limited refl

  -- The first process that opens a queue with `open_or_create` has a new one. Every process that
  -- opens it with the same limits, in either way, uses it as it is, and with other limits fails the
  -- assertion. What they send, none of it above the size, is received in the order in which it was
  -- sent, whoever sends and receives: `send` is refused exactly while the greatest number waits, and
  -- `receive`, with room for the size, gets nothing exactly while none waits.
  pub open_queue-fifo :
      (name : Bytes) (num size : ℕ) (ops : List Op) (s : Store) {s0 : Store}
      → limits name s ≡ none
      → open_or_create name num size s ≡ some s0
      → All (Fits size) ops
      → (s1 : Store) × (s' : Store) × (open_queue name num size true s ≡ some s1)
        × ((num' size' : ℕ) (create : Bool)
            → open_queue name num' size' create s1
              ≡ (if (num == num') && (size == size') then some s1 else none))
        × (run name ops s1 ≡ some (replies num ops [], s'))
  unfolding open_queue
  open_queue-fifo name num size ops s {s0} absent made fits =
      let (limited, empty) = created name num size s absent made in
      let (s', done) = run-replies name num size ops [] s0 limited empty fits in
      (
        s0,
        s',
        rw (made, limited) (ground arith),
        λ num' size' create. open-again name num size num' size' create s0 limited,
        done,
      )
