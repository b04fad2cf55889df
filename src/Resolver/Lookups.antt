-- ===== src/Resolver/Lookups.antt =====
-- Lookups and their timers: `gethostbyname`, `on_timer`, `run_callback` and `remove_timer` of
-- tornado/Resolver.cpp and tornado/Resolver.h.
use simplesvr.Prelude.{
  ℕ, ◌+◌, ◌^◌, ◌≡◌, ◌≢◌, ◌<◌, refl, ap, ◌∙◌, true, false, List, [], Option, none, some, arith, ◌==◌,
  Bool-cases, Option-cases, inl, inr, Bytes,
}
use simplesvr.Prelude.Int.{ℤ}
use simplesvr.TimeoutQueue.MultiIndex.{Container, Event, has_id}
use simplesvr.TimeoutQueue
use simplesvr.TimeoutQueue.Timers.{IsValid, add_lem, erase_lem, has_id-insert_sorted}
use simplesvr.Loop.{add_timeout, remove_timeout}
use simplesvr.Resolver.{
  Hosts, AresEvent, AresCall, get_host, Resolver, OnReply, remove_timer, run_callback, run_events,
  gethostbyname, on_timer,
}

absent_id :
    (i j : ℕ) (es : List Event) → has_id i es ≡ true → has_id j es ≡ false → (i == j) ≡ false
absent_id i j es h h' = elim (Bool-cases (i == j)) [
  | inl e ↦ let same : i ≡ j = ground arith in absurd (ground (arith, ap (λ k. has_id k es) same))
  | inr e ↦ e
]

module _ (c : Container) (handler timer_callback : ℕ) where
  -- The timers of the loop.
  abbrev pub timers : Resolver c handler timer_callback → List Event
  timers r = c.events r.loop.timeouts.timeouts

  cb-remove_timer :
      (r : Resolver c handler timer_callback) → (remove_timer c handler timer_callback r).cb ≡ r.cb
  unfolding remove_timer
  cb-remove_timer r = ground arith

  run_callback-none :
      (on_reply : OnReply c handler timer_callback) (err : ℤ) (hosts : Option Hosts)
      (r : Resolver c handler timer_callback)
      → r.cb ≡ none
      → run_callback c handler timer_callback on_reply err hosts r
        ≡ remove_timer c handler timer_callback r
  unfolding run_callback remove_timer
  run_callback-none on_reply err hosts r e = rw (cb-remove_timer r ∙ e, run_callback) refl

  cb-run_callback :
      (on_reply : OnReply c handler timer_callback) (err : ℤ) (hosts : Option Hosts)
      (r : Resolver c handler timer_callback)
      → (run_callback c handler timer_callback on_reply err hosts r).cb ≡ none
  unfolding run_callback remove_timer
  cb-run_callback on_reply err hosts r =
      elim (Option-cases (remove_timer c handler timer_callback r).cb) [
        | inl e ↦ rw (e, run_callback) e
        | inr (cb, e) ↦ rw (e, run_callback) refl
      ]

  -- The first reply to a lookup that waits takes its timer out and calls its callback once, with
  -- this reply. A second reply calls nobody, whatever that callback did, a lookup that it began
  -- included: it only stops the timer.
  pub run_callback_once :
      (on_reply : OnReply c handler timer_callback) (err err' : ℤ) (cb : ℕ)
      (hosts hosts' : Option Hosts) (r : Resolver c handler timer_callback)
      → r.cb ≡ some cb
      → let waiting = remove_timer c handler timer_callback r in
        let called = on_reply cb err hosts waiting in
        run_callback c handler timer_callback on_reply err' hosts'
          (run_callback c handler timer_callback on_reply err hosts r)
        ≡ remove_timer c handler timer_callback (record called { cb = none })
  unfolding run_callback remove_timer
  run_callback_once on_reply err err' cb hosts hosts' r held =
      let waiting = remove_timer c handler timer_callback r in
      let first : run_callback c handler timer_callback on_reply err hosts r
          ≡ record (on_reply cb err hosts waiting) { cb = none } =
        rw (cb-remove_timer r ∙ held, run_callback) refl in
      run_callback-none on_reply err' hosts' _ (cb-run_callback on_reply err hosts r)
      ∙ ap (remove_timer c handler timer_callback) first

  -- With valid timers, `remove_timer` leaves a resolver without a timer: none of the old identifier is in
  -- the queue, and the timers stay valid.
  pub remove_timer_lem :
      (r : Resolver c handler timer_callback)
      → IsValid c r.loop.timeouts
      → r.timer ≢ 0
      → let r' = remove_timer c handler timer_callback r in
        (r'.timer ≡ 0) × (has_id r.timer (timers r') ≡ false) × IsValid c r'.loop.timeouts
  unfolding remove_timer remove_timeout
  remove_timer_lem r v h =
      let (_, _, gone, valid) = erase_lem c r.timer r.loop.timeouts v in
      let e : (r.timer == 0) ≡ false = ground arith in rw (e, remove_timer) (refl, gone, valid)

  -- While a lookup waits for its reply with its timer in a valid queue, a second lookup that has to
  -- wait too gets another timer and forgets the first, which stays in the queue and fails the
  -- assertion of `on_timer` when it expires.
  pub gethostbyname_twice :
      (on_reply : OnReply c handler timer_callback) (ares : AresCall → List AresEvent) (now cb : ℕ)
      (name : Bytes) (family timeout_ms : ℕ) (r : Resolver c handler timer_callback)
      → r.ready ≡ true
      → IsValid c r.loop.timeouts
      → r.loop.timeouts.next_id + 1 < 2 ^ 64
      → has_id r.timer (timers r) ≡ true
      → ares (get_host name family) ≡ []
      → (r' : Resolver c handler timer_callback) × (gethostbyname c handler timer_callback on_reply
            ares now cb name family timeout_ms r
          ≡ some r')
        × (has_id r.timer (timers r') ≡ true)
        × (on_timer c handler timer_callback on_reply ares r.timer r' ≡ none)
  unfolding gethostbyname on_timer add_timeout run_events
  gethostbyname_twice on_reply ares now cb name family timeout_ms r ready v small waits pending =
      let (new, placed, _) = add_lem c now timeout_ms timer_callback r.loop.timeouts v small in
      let (tid, q) = TimeoutQueue.add c now timeout_ms timer_callback r.loop.timeouts in
      let other : (r.timer == tid) ≡ false = absent_id r.timer _ (timers r) waits new in
      (
        record r { cb = some cb; timer = tid; loop = record (r.loop) { timeouts = q } },
        rw (ready, pending) refl,
        ap (has_id r.timer) placed
            ∙ has_id-insert_sorted r.timer
                (record { id = tid; expiration = now + timeout_ms; callback = timer_callback })
                (timers r)
            ∙ ground arith,
        rw other refl,
      )
