-- ===== src/Loop/Callbacks.antt =====
-- The queue of callbacks of tornado/IOLoop.cpp: what one round of `start` runs of it.
use simplesvr.Prelude.{
  ℕ, ◌≡◌, ◌∙◌, sym, ap, List, [], ◌∷◌, ◌++◌, append-nil, append_assoc, arith, false,
}
use simplesvr.TimeoutQueue.MultiIndex.{Container}
use simplesvr.Loop.{Loop, Effects, call_all, run_callbacks, poll_timeout, is_nil}

-- The callbacks that all of a list add, in order.
abbrev pub added_by : (ℕ → List ℕ) → List ℕ → List ℕ
added_by adds [] = []
added_by adds (cb ∷ cbs) = adds cb ++ added_by adds cbs

module _ (c : Container) where
  -- Callbacks that add others to the loop, and whatever else they do.
  abbrev pub Adds : Effects c → (ℕ → List ℕ) → Type 0
  Adds e adds = (cb : ℕ) (l : Loop c) → (e.on_callback cb l).callbacks ≡ l.callbacks ++ adds cb

  call_all-callbacks :
      (e : Effects c) (adds : ℕ → List ℕ) (cbs : List ℕ) (l : Loop c)
      → Adds e adds
      → (call_all c e cbs l).callbacks ≡ l.callbacks ++ added_by adds cbs
  unfolding call_all
  call_all-callbacks e adds [] l h = sym (append-nil l.callbacks)
  call_all-callbacks e adds (cb ∷ cbs) l h =
      call_all-callbacks e adds cbs (e.on_callback cb l) h
      ∙ ap (λ k. k ++ added_by adds cbs) (h cb l)
      ∙ append_assoc l.callbacks (adds cb) (added_by adds cbs)

  -- What the callbacks of a round add, whatever else they do, stays for the next round, one after
  -- another in the order in which they ran, and if there is any the poll between the two does not
  -- wait.
  pub run_callbacks-added :
      (e : Effects c) (adds : ℕ → List ℕ) (now : ℕ) (l : Loop c)
      → Adds e adds
      → let l' = run_callbacks c e l in
        (l'.callbacks ≡ added_by adds l.callbacks)
        × (is_nil l'.callbacks ≡ false → poll_timeout c now l' ≡ 0)
  unfolding run_callbacks poll_timeout
  run_callbacks-added e adds now l h =
      (call_all-callbacks e adds l.callbacks (record l { callbacks = [] }) h, λ w. ground arith)
