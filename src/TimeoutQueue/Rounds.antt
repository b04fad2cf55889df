-- ===== src/TimeoutQueue/Rounds.antt =====
-- `runOnce` and `runLoop` of tornado/TimeoutQueue.cpp: which timers run, in which order, and when
-- the loop ends.
use simplesvr.Prelude.{
  ℕ, zero, suc, ◌≤◌, ◌<◌, ◌≡◌, refl, ◌∙◌, List, [], ◌∷◌, ◌++◌, none, some, arith, le→leb, lt→leb,
}
use simplesvr.Prelude.Partial.{All}
use simplesvr.TimeoutQueue.MultiIndex.{Event, Container, due, later}
use simplesvr.TimeoutQueue.{
  Queue, Effects, next_expiration, call_all, run_pass, run_once, run_loop, never, first_expiration,
}
use simplesvr.TimeoutQueue.Timers.{IsValid, IsSorted}

abbrev pub IsDue : ℕ → Event → Type 0
IsDue now e = e.expiration ≤ now

abbrev pub IsLater : ℕ → Event → Type 0
IsLater now e = now < e.expiration

due-append-later : (now : ℕ) (es : List Event) → due now es ++ later now es ≡ es
due-append-later now [] = refl
due-append-later now (e ∷ es) = ground (arith, due-append-later now es)

due-All : (now : ℕ) (es : List Event) → All (IsDue now) (due now es)
due-All now [] = tt
due-All now (e ∷ es) = ground (arith, due-All now es)

All-IsLater :
    (now d : ℕ) (es : List Event)
    → now < d
    → All (λ (x : Event). d ≤ x.expiration) es
    → All (IsLater now) es
All-IsLater now d [] h a = tt
All-IsLater now d (e ∷ es) h a = (omega arith, All-IsLater now d es h a.1)

later-All : (now : ℕ) (es : List Event) → IsSorted es → All (IsLater now) (later now es)
later-All now [] s = tt
later-All now (e ∷ es) s = ground (arith, later-All now es s.1, All-IsLater now e.expiration es)

first_expiration-later :
    (now : ℕ) (es : List Event) → now < never → All (IsLater now) es → now < first_expiration es
first_expiration-later now [] small h = small
first_expiration-later now (e ∷ es) small h = h.0

-- If the first timer is due, a pass runs at least that one.
due-first :
    (now : ℕ) (es : List Event)
    → now < never
    → first_expiration es ≤ now
    → (e : Event) × (rest : List Event) × (due now es ≡ e ∷ rest)
due-first now [] small h = absurd (omega arith)
due-first now (e ∷ es) small h = (e, due now es, rw (le→leb e.expiration now h))

module _ (c : Container) where
  open c use {events, taken, events-take_until}

  -- On a valid queue a pass runs the timers that are due, in the order of expiration, and none of
  -- those that it leaves waiting is due.
  pub run_pass_lem :
      (effect : Effects c) (now : ℕ) (q : Queue c)
      → IsValid c q
      → let expired = (run_pass c effect now q).0 in
        (waiting : List Event) × (expired ++ waiting ≡ events q.timeouts)
        × All (IsDue now) expired
        × All (IsLater now) waiting
  unfolding run_pass
  run_pass_lem effect now q v =
      let es = events q.timeouts in
      let e = taken now q.timeouts in
      (
        later now es,
        rw e (due-append-later now es),
        rw e (due-All now es),
        later-All now es v.sorted,
      )

  -- No timer in the queue is due.
  abbrev pub IsQuiet : ℕ → Queue c → Type 0
  IsQuiet now q = All (IsLater now) (events q.timeouts)

  -- The callbacks that run at `now` add no timer that is due at once.
  abbrev pub KeepsQuiet : Effects c → ℕ → Type 0
  KeepsQuiet effect now =
      (callback id : ℕ) (q : Queue c) → IsQuiet now q → IsQuiet now (effect callback id now q)

  call_all-IsQuiet :
      (effect : Effects c) (now : ℕ) (es : List Event) (q : Queue c)
      → KeepsQuiet effect now
      → IsQuiet now q
      → IsQuiet now (call_all c effect now es q)
  unfolding call_all
  call_all-IsQuiet effect now [] q k h = h
  call_all-IsQuiet effect now (e ∷ es) q k h =
      call_all-IsQuiet effect now es (effect e.callback e.id now q) k (k e.callback e.id q h)

  run_once-IsQuiet :
      (effect : Effects c) (now : ℕ) (q : Queue c)
      → IsValid c q
      → KeepsQuiet effect now
      → IsQuiet now (run_once c effect now q).1
  unfolding run_once run_pass
  run_once-IsQuiet effect now q v k =
      call_all-IsQuiet effect now (c.take_until now q.timeouts).0
        (record q { timeouts = (c.take_until now q.timeouts).1 }) k
        (rw (events-take_until now q.timeouts) (later-All now (events q.timeouts) v.sorted))

  next_expiration-later :
      (now : ℕ) (q : Queue c) → now < never → IsQuiet now q → now < next_expiration c q
  unfolding next_expiration
  next_expiration-later now q small h = first_expiration-later now (events q.timeouts) small h

  run_once-ahead :
      (effect : Effects c) (now : ℕ) (q : Queue c)
      → IsValid c q
      → now < never
      → KeepsQuiet effect now
      → now < (run_once c effect now q).0
  run_once-ahead effect now q v small k =
      let quiet = run_once-IsQuiet effect now q v k in
      unfold run_once in next_expiration-later now (run_once c effect now q).1 small quiet

  -- On a valid queue, at a time before the greatest, if no callback adds a timer that is due at
  -- once, one pass is enough: `runLoop` returns what `runOnce` returns, a time that lies ahead.
  pub run_loop_once :
      (fuel : ℕ) (effect : Effects c) (now : ℕ) (q : Queue c)
      → IsValid c q
      → now < never
      → KeepsQuiet effect now
      → (run_loop c (suc fuel) effect now q ≡ some (run_once c effect now q))
        × (now < (run_once c effect now q).0)
  unfolding run_loop
  run_loop_once fuel effect now q v small k =
      let ahead = run_once-ahead effect now q v small k in
      (rw (lt→leb (run_once c effect now q).0 now ahead), ahead)

  -- Every callback leaves a timer in the queue that is due.
  abbrev pub KeepsBusy : Effects c → ℕ → Type 0
  KeepsBusy effect now =
      (callback id : ℕ) (q : Queue c) → next_expiration c (effect callback id now q) ≤ now

  call_all-busy :
      (effect : Effects c) (now : ℕ) (e : Event) (es : List Event) (q : Queue c)
      → KeepsBusy effect now
      → next_expiration c (call_all c effect now (e ∷ es) q) ≤ now
  unfolding call_all
  call_all-busy effect now e [] q k = k e.callback e.id q
  call_all-busy effect now e (x ∷ es) q k =
      call_all-busy effect now x es (effect e.callback e.id now q) k

  run_once-busy :
      (effect : Effects c) (now : ℕ) (q : Queue c)
      → now < never
      → KeepsBusy effect now
      → next_expiration c q ≤ now
      → (run_once c effect now q).0 ≤ now
  unfolding run_once run_pass next_expiration
  run_once-busy effect now q small k h =
      let (e, rest, first) = due-first now (events q.timeouts) small h in
      let ran = taken now q.timeouts ∙ first in
      let left = record q { timeouts = (c.take_until now q.timeouts).1 } in
      rw ran (call_all-busy effect now e rest left k)

  -- At a time before the greatest, with a timer due, if every callback leaves a due timer behind,
  -- `runLoop` does not return, whatever the number of passes.
  pub run_loop_endless :
      (fuel : ℕ) (effect : Effects c) (now : ℕ) (q : Queue c)
      → now < never
      → KeepsBusy effect now
      → next_expiration c q ≤ now
      → run_loop c fuel effect now q ≡ none
  unfolding run_loop
  run_loop_endless zero effect now q small k h = refl
  run_loop_endless (suc fuel) effect now q small k h =
      let busy = run_once-busy effect now q small k h in
      rw (le→leb (run_once c effect now q).0 now busy) (
        run_loop_endless fuel effect now (run_once c effect now q).1 small k
          (unfold run_once in busy))
