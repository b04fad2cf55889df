-- ===== src/App.antt =====
-- tornado/App.h and tornado/App.cpp: an application that runs its own code from time to time on the
-- event loop. `oneLoopProcessData`, which is virtual, is a parameter.
pub mod Timers
mod Tests
use simplesvr.Prelude.{ℕ, Bool, true, false, not, List, Option, none, some, if◌then◌else◌}
use simplesvr.Prelude.Int.{ℤ}
use simplesvr.TimeoutQueue.MultiIndex.{Container}
use simplesvr.Loop.{
  Loop, SignalSetup, add_signal_handler, remove_handler, add_timeout, remove_timeout,
}

module _ (c : Container) (signal_callback loop_callback : ℕ) where
  -- `running_`, `tid_` and the loop; `closed` has the descriptors given to `::close`.
  pub record App : Type 0 where
    pub running : Bool
    pub tid : ℕ
    pub loop : Loop c
    pub closed : List ℕ

  unfoldable pub stop : App → App
  stop a =
      if a.running
      then record a { running = false; loop = (remove_timeout c a.tid a.loop).1 }
      else a

  -- `signal_handler`, by what `unregisterFD` returns.
  unfoldable pub signal_handler : ℕ → ℤ → App → App
  signal_handler fd result a = stop (record a { loop = (remove_handler c fd result a.loop).1 })

  -- `start` up to the call of `IOLoop::start`, at a time of the clock. The result says whether that
  -- call is made; `none` is a failed assertion.
  unfoldable pub start : SignalSetup → ℕ → App → Option (Bool × App)
  start setup now a =
      if a.running then none else elim (add_signal_handler c setup signal_callback a.loop) [
        | none ↦ none
        | some (none, closed, l) ↦ some (false, record a { loop = l; closed = closed })
        | some (some sfd, closed, l) ↦
            let (tid, l') = add_timeout c now 0 loop_callback l in
            some (true, record a { running = true; tid = tid; loop = l'; closed = closed })
      ]

  -- `runOneLoop`, with what `oneLoopProcessData` does and the delay that it returns.
  unfoldable pub run_one_loop : (App → ℕ × App) → ℕ → App → App
  run_one_loop process now a =
      let (delay, a') = process a in
      let (tid, l) = add_timeout c now delay loop_callback a'.loop in
      if not a.running then a else record a' { tid = tid; loop = l }
