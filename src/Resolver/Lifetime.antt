-- ===== src/Resolver/Lifetime.antt =====
-- The constructor and the destructor of tornado/Resolver.cpp.
use simplesvr.Prelude.{
  ℕ, ◌+◌, ◌^◌, ◌≡◌, ◌<◌, refl, ap, ◌∙◌, true, false, not, inl, inr, Option-cases, List, [], ◌∷◌,
  Option, none, some, arith, if◌then◌else◌, ◌==◌, Bytes,
}
use simplesvr.Prelude.Partial.{◌>>=◌}
use simplesvr.Prelude.Int.{ℤ, pos, negsuc}
use simplesvr.Stream.{no_events}
use simplesvr.TimeoutQueue.MultiIndex.{Container, has_id}
use simplesvr.TimeoutQueue
use simplesvr.TimeoutQueue.Timers.{IsValid, add_lem, has_id-insert_sorted}
use simplesvr.Loop.{Loop, add_timeout, remove_timeout}
use simplesvr.Resolver.{
  Hosts, AresEvent, AresCall, get_host, host_reply, Resolver, OnReply, remove_timer, run_callback,
  host_callback, run_event, run_events, gethostbyname,
}
use simplesvr.Resolver.Lookups.{timers}

module _ (c : Container) (handler timer_callback : ℕ) where
  -- `Resolver::Resolver`, on the loop of the process.
  abbrev pub new_resolver : Loop c → Resolver c handler timer_callback
  new_resolver l = record { ready = false; state = no_events; timer = 0; cb = none; loop = l }

  -- `Resolver::~Resolver`, by the callbacks that `ares_destroy` makes. `none` is a failed assertion.
  unfoldable pub destroy_resolver :
      OnReply c handler timer_callback
      → List AresEvent
      → Resolver c handler timer_callback
      → Option (Resolver c handler timer_callback)
  destroy_resolver on_reply es r = if not r.ready then some (record r { cb = none }) else (do
    r' ← run_events c handler timer_callback on_reply es r
    some (record r' { ready = false; cb = none }))

  -- A callback of a lookup that leaves the resolver alone.
  abbrev pub IsQuiet : OnReply c handler timer_callback → Type 0
  IsQuiet on_reply =
      (cb : ℕ) (err : ℤ) (hosts : Option Hosts) (r : Resolver c handler timer_callback)
      → on_reply cb err hosts r ≡ r

  remove_timer-stopped :
      (r : Resolver c handler timer_callback)
      → r.timer ≡ 0
      → remove_timer c handler timer_callback r ≡ r
  unfolding remove_timer
  remove_timer-stopped r stopped =
      ap
        (λ t.
          if t == 0 then r else record r { loop = (remove_timeout c r.timer r.loop).1; timer = 0 })
        stopped

  run_callback-IsQuiet :
      (on_reply : OnReply c handler timer_callback) (err : ℤ) (hosts : Option Hosts)
      (r : Resolver c handler timer_callback)
      → IsQuiet on_reply
      → r.timer ≡ 0
      → run_callback c handler timer_callback on_reply err hosts r ≡ record r { cb = none }
  unfolding run_callback
  run_callback-IsQuiet on_reply err hosts r quiet stopped =
      let same = remove_timer-stopped r stopped in
      let forget : Resolver c handler timer_callback → Resolver c handler timer_callback =
        λ q. record q { cb = none } in
      elim (Option-cases r.cb) [
        | inl e ↦
            rw (same, run_callback) (rw (e, run_callback) (same ∙ ap (λ k. record r { cb = k }) e))
        | inr (cb, e) ↦
            rw (same, run_callback)
              (rw (e, run_callback)
                (ap (λ q. forget (on_reply cb err hosts q)) same
                  ∙ ap forget (quiet cb err hosts r)))
      ]

  host_callback-IsQuiet :
      (on_reply : OnReply c handler timer_callback) (hosts : Option Hosts)
      (r : Resolver c handler timer_callback)
      → IsQuiet on_reply
      → r.timer ≡ 0
      → host_callback c handler timer_callback on_reply hosts r ≡ record r { cb = none }
  unfolding host_callback
  host_callback-IsQuiet on_reply none r quiet stopped =
      run_callback-IsQuiet on_reply (negsuc 0) none r quiet stopped
  host_callback-IsQuiet on_reply (some hosts) r quiet stopped =
      run_callback-IsQuiet on_reply (pos 0) (some hosts) r quiet stopped

  -- A lookup that c-ares answers before `ares_gethostbyname` returns, by a callback that leaves the
  -- resolver alone, on valid timers, waits for nothing afterwards, but its timer is in the queue,
  -- and it is there still when the resolver has been destroyed, by a destruction that makes no
  -- callback.
  pub destroy_resolver_timer :
      (on_reply : OnReply c handler timer_callback) (ares : AresCall → List AresEvent) (now cb : ℕ)
      (name : Bytes) (family timeout_ms : ℕ) (hosts : Option Hosts)
      (r : Resolver c handler timer_callback)
      → r.ready ≡ true
      → r.timer ≡ 0
      → IsValid c r.loop.timeouts
      → r.loop.timeouts.next_id + 1 < 2 ^ 64
      → IsQuiet on_reply
      → ares (get_host name family) ≡ host_reply hosts ∷ []
      → (r' : Resolver c handler timer_callback) × (last : Resolver c handler timer_callback)
        × (gethostbyname c handler timer_callback on_reply ares now cb name family timeout_ms r
            ≡ some r')
        × (r'.cb ≡ none)
        × (destroy_resolver on_reply [] r' ≡ some last)
        × (last.ready ≡ false)
        × (has_id r'.timer (timers c handler timer_callback last) ≡ true)
  unfolding gethostbyname add_timeout run_events run_event destroy_resolver
  destroy_resolver_timer on_reply ares now cb name family timeout_ms hosts r ready stopped v small
        quiet answered =
      let (_, placed, _) = add_lem c now timeout_ms timer_callback r.loop.timeouts v small in
      let (tid, q) = TimeoutQueue.add c now timeout_ms timer_callback r.loop.timeouts in
      let waiting : Resolver c handler timer_callback = record r { cb = some cb } in
      let done = host_callback-IsQuiet on_reply hosts waiting quiet stopped in
      let r' : Resolver c handler timer_callback = record r {
        cb = none;
        timer = tid;
        loop = record (r.loop) { timeouts = q };
      } in
      let run : run_events c handler timer_callback on_reply (ares (get_host name family)) waiting
          ≡ some (record r { cb = none }) =
        rw answered (ap some done) in
      let destroyed : destroy_resolver on_reply [] r'
          ≡ some (record r' { ready = false; cb = none }) =
        rw (ready, destroy_resolver) refl in
      (
        r',
        record r' { ready = false; cb = none },
        rw (run, gethostbyname) (rw ready refl),
        refl,
        destroyed,
        refl,
        ap (has_id tid) placed
            ∙ has_id-insert_sorted tid
                (record { id = tid; expiration = now + timeout_ms; callback = timer_callback })
                (timers c handler timer_callback r)
            ∙ ground arith,
      )
