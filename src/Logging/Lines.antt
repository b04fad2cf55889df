-- ===== src/Logging/Lines.antt =====
-- The buffer in which tornado/Logging.cpp makes a line.
use simplesvr.Prelude.{
  ◌+◌, ◌-◌, ◌≡◌, ◌≤◌, ◌<◌, ◌↔◌, inl, inr, [], ◌∷◌, ◌++◌, none, some, arith, length, take, Bytes,
  Option-cases,
}
use simplesvr.Logging.{string_line, message_line}

-- `writeString` writes past its buffer exactly where the line has 102400 bytes or more without its
-- end, and else hands on the whole of it.
pub string_line_lem :
    (text : Bytes)
    → ((string_line text ≡ none) ↔ (102400 ≤ length text))
      × (length text < 102400 → string_line text ≡ some (text ++ 10 ∷ []))
unfolding string_line
string_line_lem text = ground arith

-- `write` writes past its buffer exactly where head and message have 102400 bytes or more. Below
-- 102399 bytes it hands on the whole line; with 102399 the last byte of a message is lost, and a
-- null byte stands in its place.
pub message_line_lem :
    (head message : Bytes)
    → ((message_line head message ≡ none) ↔ (102400 ≤ length head + length message))
      × (length head + length message < 102399
          → message_line head message ≡ some (head ++ message ++ 10 ∷ []))
      × (0 < length message
          → length head + length message ≡ 102399
          → message_line head message
            ≡ some (head ++ take (length message - 1) message ++ 0 ∷ 10 ∷ []))
unfolding message_line
message_line_lem head message = ground arith

-- A line that fits is handed on.
pub message_line-some :
    (head message : Bytes)
    → length head + length message < 102400
    → (line : Bytes) × (message_line head message ≡ some line)
message_line-some head message h = elim (Option-cases (message_line head message)) [
  | inl e ↦ absurd (ground (arith, (message_line_lem head message).0.0 e))
  | inr some_line ↦ some_line
]
