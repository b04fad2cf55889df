-- ===== src/Shm/Sessions.antt =====
-- The containers of tornado/shm/container.hpp as several processes use them: each opens the segment, makes
-- a call through the pointer to the container, and goes, in any order.
use simplesvr.Prelude.{ℕ, ◌≡◌, ◌≢◌, refl, sym, ap, ◌∙◌, List, [], ◌∷◌, Option, none, some, Bytes}
use simplesvr.Prelude.Partial.{◌>>=◌}
use simplesvr.Shm.Segment.{Segments, attach, attach_open, attach_new}

module _ {ℓ κ μ} {V : Type ℓ} {Op : Type κ} {Reply : Type μ} (call : Op → V → Reply × V) where
  -- The calls on one container that nobody opens or closes.
  unfoldable pub run_calls : List Op → V → List Reply
  run_calls [] v = []
  run_calls (op ∷ ops) v = let (reply, w) = call op v in reply ∷ run_calls ops w

module _ {ℓ κ μ} {V : Type ℓ} {Op : Type κ} {Reply : Type μ} (m : Segments V) (object : Bytes)
    (initial : V) (call : Op → V → Reply × V) where
  open m use {
    Store, size_of, create, construct, write, size_of-create, size_of-construct, size_of-write,
    find-construct, find-write,
  }

  -- One process: the constructor, a call, and the destructor, which leaves the segment. A call that
  -- changes nothing writes what is there.
  unfoldable pub session : Bytes → ℕ → Op → Store → Option (Reply × Store)
  session name n op s = do
    r ← attach m object initial name n s
    let done = call op r.0
    some (done.0, write name object done.1 r.1)

  unfoldable pub run_sessions : Bytes → ℕ → List Op → Store → Option (List Reply × Store)
  run_sessions name n [] s = some ([], s)
  run_sessions name n (op ∷ ops) s = do
    r ← session name n op s
    rest ← run_sessions name n ops r.1
    some (r.0 ∷ rest.0, rest.1)

  -- What a session finds decides what becomes of the store.
  same_start :
      (name : Bytes) (n : ℕ) (op : Op) (ops : List Op) (s s1 : Store)
      → attach m object initial name n s ≡ attach m object initial name n s1
      → run_sessions name n (op ∷ ops) s ≡ run_sessions name n (op ∷ ops) s1
  unfolding run_sessions session
  same_start name n op ops s s1 e =
      let first : V × Store → Option (Reply × Store) =
        λ r. some ((call op r.0).0, write name object (call op r.0).1 r.1) in
      let then_rest : Reply × Store → Option (List Reply × Store) =
        λ r. run_sessions name n ops r.1 >>= λ rest. some (r.0 ∷ rest.0, rest.1) in
      ap (λ o. (o >>= first) >>= then_rest) e

  run_sessions-calls :
      (name : Bytes) (n : ℕ) (ops : List Op) (s : Store) (v : V)
      → size_of name s ≡ some n
      → m.find name object s ≡ some v
      → n ≢ 0
      → (s' : Store) × (run_sessions name n ops s ≡ some (run_calls call ops v, s'))
  unfolding run_sessions run_calls session
  run_sessions-calls name n [] s v sized present positive = (s, refl)
  run_sessions-calls name n (op ∷ ops) s v sized present positive =
      let opens = attach_open m object initial v name n s sized present positive in
      let w = (call op v).1 in
      let next = write name object w s in
      let (s', rest) =
        run_sessions-calls name n ops next w (size_of-write name object w s ∙ sized)
          (find-write name object w v s present) positive in
      (s', rw (opens, rest) refl)

  -- Processes that use one container in turn, each with the same size, which is not 0, where the
  -- segment can be created by the first, with room for the empty container: no assertion fails, and they are answered as by one
  -- container that is new at first.
  pub run_sessions_new :
      (name : Bytes) (n : ℕ) (op : Op) (ops : List Op) (s : Store) {s0 s1 : Store}
      → size_of name s ≡ none
      → create name n s ≡ some s0
      → construct name object initial s0 ≡ some s1
      → n ≢ 0
      → (s' : Store) × (run_sessions name n (op ∷ ops) s
          ≡ some (run_calls call (op ∷ ops) initial, s'))
  run_sessions_new name n op ops s {s0} {s1} absent made put positive =
      let size = size_of-create name n s made in
      let sized = size_of-construct name object initial s0 put ∙ size in
      let present = find-construct name object initial s0 size put in
      let first = attach_new m object initial name n s absent made put positive in
      let again = attach_open m object initial initial name n s1 sized present positive in
      let (s', done) = run_sessions-calls name n (op ∷ ops) s1 initial sized present positive in
      (s', same_start name n op ops s s1 (first ∙ sym again) ∙ done)
