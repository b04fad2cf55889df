-- ===== src/Buffer/Script.antt =====
-- A client's calls of tornado/Buffer.h in order, with what each returns.
use simplesvr.Prelude.{ℕ, ◌≡◌, refl, Bool, true, List, [], ◌∷◌, arith, Bytes}
use simplesvr.Buffer.{Buffer, append, read_bytes_to_string, read_bytes, contents, clear}
use simplesvr.Buffer.Bounds.{
  IsValid, append-IsValid, read_bytes-IsValid, read_bytes_to_string-IsValid, clear-IsValid,
}
use simplesvr.Buffer.Queue.{
  push, pop, append_refines, read_bytes_refines, read_bytes_to_string_refines, buff_len-append,
  buff_len-read_bytes, buff_len-read_bytes_to_string,
}

pub data Op : Type 0 where
  appends : Bytes → Op
  reads skips : ℕ → Op
  clears : Op

abbrev pub Reply : Type 0
Reply = Bool × Bytes

pub run : Buffer → List Op → List Reply
run b [] = []
run b (appends bytes ∷ ops) = let (done, b') = append b bytes in (done, []) ∷ run b' ops
run b (reads n ∷ ops) =
    let (done, out, b') = read_bytes_to_string b n [] in (done, out) ∷ run b' ops
run b (skips n ∷ ops) = let (done, b') = read_bytes b n in (done, []) ∷ run b' ops
run b (clears ∷ ops) = (true, []) ∷ run (clear b) ops

-- The same calls on the queue.
pub run_queue : ℕ → Bytes → List Op → List Reply
run_queue cap q [] = []
run_queue cap q (appends bytes ∷ ops) =
    let (done, q') = push cap q bytes in (done, []) ∷ run_queue cap q' ops
run_queue cap q (reads n ∷ ops) =
    let (done, out, q') = pop q n in (done, out) ∷ run_queue cap q' ops
run_queue cap q (skips n ∷ ops) = let (done, out, q') = pop q n in (done, []) ∷ run_queue cap q' ops
run_queue cap q (clears ∷ ops) = (true, []) ∷ run_queue cap [] ops

clear_lem : (b : Buffer) → (contents (clear b) ≡ []) × ((clear b).buff_len ≡ b.buff_len)
unfolding clear
clear_lem b = (refl, refl)

-- Every sequence of appends, reads, skips and clears on a valid buffer is answered as by the bounded
-- queue of its readable bytes.
pub run_refines :
    (b : Buffer) (ops : List Op) → IsValid b → run b ops ≡ run_queue b.buff_len (contents b) ops
unfolding run run_queue
run_refines b [] v = refl
run_refines b (appends bytes ∷ ops) v = ground (
  arith,
  append_refines b bytes v,
  buff_len-append b bytes,
  run_refines (append b bytes).1 ops (append-IsValid b bytes v),
)
run_refines b (reads n ∷ ops) v = ground (
  arith,
  read_bytes_to_string_refines b n [] v,
  buff_len-read_bytes_to_string b n [],
  run_refines (read_bytes_to_string b n []).2 ops (read_bytes_to_string-IsValid b n [] v),
)
run_refines b (skips n ∷ ops) v = ground (
  arith,
  read_bytes_refines b n v,
  buff_len-read_bytes b n,
  run_refines (read_bytes b n).1 ops (read_bytes-IsValid b n v),
)
run_refines b (clears ∷ ops) v =
    ground (arith, clear_lem b, run_refines (clear b) ops (clear-IsValid b v))
