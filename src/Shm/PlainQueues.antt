-- ===== src/Shm/PlainQueues.antt =====
-- Message queues as a function of their names, in place of those of `boost::interprocess` that
-- tornado/shm/mq.hpp opens: they show that what is asked of them can be had.
use simplesvr.Prelude.{
  ℕ, ◌≤◌, ◌≡◌, refl, ap, ◌∙◌, Bool, List, [], ◌∷◌, Option, none, some, arith, ltb, leb,
  if◌then◌else◌, length, Bytes, bytes_eq, bytes_eq_iff, inl, inr, Option-cases,
}
use simplesvr.Shm.Queue.{Message, MessageQueues, insert_message}

pub record Held : Type 0 where
  pub num : ℕ
  pub size : ℕ
  pub messages : List Message

abbrev pub Queues : Type 0
Queues = Bytes → Option Held

abbrev pub place : Bytes → Held → Queues → Queues
place name h s j = if bytes_eq j name then some h else s j

abbrev pub limits : Bytes → Queues → Option (ℕ × ℕ)
limits name s = elim (s name) [ none ↦ none | some h ↦ some (h.num, h.size) ]

abbrev pub waiting : Bytes → Queues → List Message
waiting name s = elim (s name) [ none ↦ [] | some h ↦ h.messages ]

abbrev pub open_or_create : Bytes → ℕ → ℕ → Queues → Option Queues
open_or_create name num size s = elim (s name) [
  | none ↦ some (place name (record { num = num; size = size; messages = [] }) s)
  | some h ↦ some s
]

abbrev pub after_send : Message → Held → Held
after_send m h =
    if ltb (length h.messages) h.num then record h { messages = insert_message m h.messages } else h

abbrev pub try_send : Bytes → Message → Queues → Option (Bool × Queues)
try_send name m s = elim (s name) [
  | none ↦ none
  | some h ↦
      if leb (length m.content) h.size
      then some (ltb (length h.messages) h.num, place name (after_send m h) s)
      else none
]

abbrev pub rest_of : List Message → List Message
rest_of [] = []
rest_of (x ∷ xs) = xs

abbrev pub first_of : List Message → Option Message
first_of [] = none
first_of (x ∷ xs) = some x

abbrev pub try_receive : Bytes → ℕ → Queues → Option (Option Message × Queues)
try_receive name room s = elim (s name) [
  | none ↦ none
  | some h ↦
      if leb h.size room
      then some (first_of h.messages, place name (record h { messages = rest_of h.messages }) s)
      else none
]

place_same : (name : Bytes) (h : Held) (s : Queues) → place name h s name ≡ some h
place_same name h s = rw ((bytes_eq_iff name name).1 refl) refl

first_of_lem : (l : List Message) → first_of l ≡ elim l [ [] ↦ none | x ∷ xs ↦ some x ]
first_of_lem [] = refl
first_of_lem (x ∷ xs) = refl

rest_of_lem : (l : List Message) → rest_of l ≡ elim l [ [] ↦ [] | x ∷ xs ↦ xs ]
rest_of_lem [] = refl
rest_of_lem (x ∷ xs) = refl

pub created :
    (name : Bytes) (num size : ℕ) (s : Queues) {s' : Queues}
    → limits name s ≡ none
    → open_or_create name num size s ≡ some s'
    → (limits name s' ≡ some (num, size)) × (waiting name s' ≡ [])
created name num size s {s'} absent made =
    let h : Held = record { num = num; size = size; messages = [] } in
    elim (Option-cases (s name)) [
      | inl e ↦
          let same : s' ≡ place name h s = ground arith in
          let here = place_same name h s in
          (
            ap (limits name) same ∙ rw (here, limits) refl,
            ap (waiting name) same ∙ rw (here, waiting) refl,
          )
      | inr (g, e) ↦ absurd (ground arith)
    ]

pub opened :
    (name : Bytes) (num size : ℕ) (s : Queues) {l : ℕ × ℕ}
    → limits name s ≡ some l
    → open_or_create name num size s ≡ some s
opened name num size s held = elim (Option-cases (s name)) [
  | inl e ↦ absurd (ground arith)
  | inr (g, e) ↦ rw (e, open_or_create) refl
]

pub sent :
    (name : Bytes) (m : Message) (s : Queues) {num size : ℕ}
    → limits name s ≡ some (num, size)
    → length m.content ≤ size
    → (s' : Queues) × (try_send name m s ≡ some (ltb (length (waiting name s)) num, s'))
      × (limits name s' ≡ some (num, size))
      × (waiting name s' ≡ (
          if ltb (length (waiting name s)) num
          then insert_message m (waiting name s)
          else waiting name s))
sent name m s {num} {size} held fits = elim (Option-cases (s name)) [
  | inl e ↦ absurd (ground arith)
  | inr (h, e) ↦
      let here = place_same name (after_send m h) s in
      (
        place name (after_send m h) s,
        ground arith,
        rw (here, limits) (ground arith),
        rw (here, waiting) (ground arith),
      )
]

pub received :
    (name : Bytes) (room : ℕ) (s : Queues) {num size : ℕ}
    → limits name s ≡ some (num, size)
    → size ≤ room
    → (s' : Queues) × (try_receive name room s
        ≡ some (elim (waiting name s) [ [] ↦ none | x ∷ xs ↦ some x ], s'))
      × (limits name s' ≡ some (num, size))
      × (waiting name s' ≡ elim (waiting name s) [ [] ↦ [] | x ∷ xs ↦ xs ])
received name room s {num} {size} held fits = elim (Option-cases (s name)) [
  | inl e ↦ absurd (ground arith)
  | inr (h, e) ↦
      let next : Held = record h { messages = rest_of h.messages } in
      let here = place_same name next s in
      (
        place name next s,
        ground (arith, first_of_lem h.messages),
        rw (here, limits) (ground arith),
        rw (here, waiting) (ground (arith, rest_of_lem h.messages)),
      )
]

abbrev pub plain_queues : MessageQueues
plain_queues = record {
  Store = Queues;
  limits = limits;
  waiting = waiting;
  open_or_create = open_or_create;
  try_send = try_send;
  try_receive = try_receive;
  created = created;
  opened = opened;
  sent = sent;
  received = received;
}
