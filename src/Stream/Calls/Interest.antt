-- ===== src/Stream/Calls/Interest.antt =====
-- What a stream of tornado/IOStream.cpp waits for after `handleEvents`.
use simplesvr.Prelude.{◌⊎◌, ◌<◌, ◌≡◌, ◌↔◌, true}
use simplesvr.Buffer.{readable_bytes}
use simplesvr.Stream.{Stream}

-- What an open stream is to wait for.
pub record IsWaiting (s : Stream) : Type 0 where
  pub errors : s.state.failing ≡ true
  pub output : (s.state.writable ≡ true) ↔ (0 < readable_bytes s.write_buffer)
  pub input : (s.state.readable ≡ true) ↔ ((0 < s.read_bytes) ⊎ (readable_bytes s.write_buffer ≡ 0))

abbrev pub IsSettled : Stream → Type 0
IsSettled s = (s.closed ≡ true) ⊎ IsWaiting s
