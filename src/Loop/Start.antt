-- ===== src/Loop/Start.antt =====
-- `IOLoop::start` of tornado/IOLoop.cpp: how long it waits and how it ends.
use simplesvr.Prelude.{
  ℕ, ◌+◌, ◌≤◌, ◌≡◌, ◌⊎◌, true, false, not, ◌||◌, List, [], ◌∷◌, Option, none, some, arith, ◌==◌,
  if_elim,
}
use simplesvr.TimeoutQueue.{next_expiration}
use simplesvr.TimeoutQueue.MultiIndex.{Container}
use simplesvr.Loop.{
  Loop, Effects, Round, Ending, stopped, idle, aborted, goes_on, is_nil, poll_timeout, run_pending,
  has_nothing, dispatch, run_rounds, start,
}

module _ (c : Container) where
  -- The loop waits a minute at most, not at all while callbacks are queued, and never beyond the
  -- time of the first timer.
  pub poll_timeout_lem :
      (now : ℕ) (l : Loop c)
      → (poll_timeout c now l ≤ 60000)
        × (is_nil l.callbacks || (poll_timeout c now l == 0) ≡ true)
        × ((poll_timeout c now l ≡ 0) ⊎ (now + poll_timeout c now l ≤ next_expiration c l.timeouts))
  unfolding poll_timeout
  poll_timeout_lem now l = ground arith

  -- What the flag `running_` is when `start` returns.
  abbrev pub Leaves : Ending c → Type 0
  Leaves (stopped l) = l.running ≡ false
  Leaves (idle l) = l.running ≡ true
  Leaves aborted = Unit {0}
  Leaves (goes_on l) = Unit {0}

  pub run_rounds-Leaves :
      (e : Effects c) (rounds : List (Round c)) (l : Loop c) → Leaves (run_rounds c e rounds l)
  unfolding run_rounds
  run_rounds-Leaves e [] l = tt
  run_rounds-Leaves e (r ∷ rs) l =
      let l' : Loop c = run_pending c e r.timer_now l in
      let after : (d : Option (Loop c))
          → Leaves (elim d [ none ↦ aborted | some m ↦ run_rounds c e rs m ]) =
        λ d. elim d as (λ k. Leaves (elim k [ none ↦ aborted | some m ↦ run_rounds c e rs m ])) [
          | none ↦ tt
          | some m ↦ run_rounds-Leaves e rs m
        ] in
      if_elim Leaves (not l'.running) (λ h. ground arith)
        (λ h.
          if_elim Leaves (has_nothing c l') (λ h'. ground arith)
            (λ h'. after (dispatch c e r.polled l')))

  -- A loop that `start` left because `stop` was called does not count as running.
  pub start_stopped :
      (e : Effects c) (rounds : List (Round c)) (l l' : Loop c)
      → start c e rounds l ≡ some (stopped l')
      → l'.running ≡ false
  unfolding start
  start_stopped e rounds l l' h =
      ground (arith, run_rounds-Leaves e rounds (record l { running = true }))
