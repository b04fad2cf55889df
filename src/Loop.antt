-- ===== src/Loop.antt =====
-- tornado/IOLoop.h, tornado/IOLoop.cpp and the calls of tornado/EPoll.cpp that it makes: the event
-- loop. Handlers and callbacks are known by numbers; what they do when they run is a parameter.
pub mod Table
pub mod Start
pub mod Restarts
pub mod Streams
pub mod Signals
pub mod Counting
pub mod Watching
pub mod Polling
pub mod Callbacks
pub mod Lifetime
pub mod Epoll
mod Tests
use simplesvr.Prelude.{
  ℕ, zero, suc, ◌+◌, ◌-◌, ◌*◌, Bool, true, false, not, ◌&&◌, ◌||◌, List, [], ◌∷◌, ◌++◌, Option,
  none, some, ltb, leb, ◌==◌, if◌then◌else◌, get_elem?, length, replicate,
}
use simplesvr.Prelude.Int.{ℤ, pos, negsuc}
use simplesvr.Stream.{Events, union, read_event, error_event}
use simplesvr.TimeoutQueue
use simplesvr.TimeoutQueue.{next_expiration, empty}
use simplesvr.TimeoutQueue.MultiIndex.{Container, Event}

-- `STHander`: whether its `fd` is set, and its callback.
pub record Slot : Type 0 where
  pub taken : Bool
  pub cb : Option ℕ

abbrev pub free_slot : Slot
free_slot = record { taken = false; cb = none }

-- `MIN_FD`.
abbrev pub min_fd : ℕ
min_fd = 3

-- A call of `epoll_ctl` by `registerFD`, `modifyFD` or `unregisterFD`.
pub data Control : Type 0 where
  register_fd modify_fd : ℕ → Events → Control
  unregister_fd : ℕ → Control

-- A write to `handlers_[fd]`.
abbrev pub set_slot : List Slot → ℕ → Slot → List Slot
set_slot [] fd s = []
set_slot (x ∷ xs) zero s = s ∷ xs
set_slot (x ∷ xs) (suc fd) s = x ∷ set_slot xs fd s

abbrev pub slot_at : List Slot → ℕ → Slot
slot_at [] fd = free_slot
slot_at (x ∷ xs) zero = x
slot_at (x ∷ xs) (suc fd) = slot_at xs fd

abbrev pub is_nil : List ℕ → Bool
is_nil [] = true
is_nil (x ∷ xs) = false

abbrev pub is_zero : ℤ → Bool
is_zero (pos n) = n == 0
is_zero (negsuc n) = false

-- What the system gives `addSignalHandler`: whether `sigprocmask` succeeds, the descriptor of
-- `signalfd`, and the results of `registerFD` and `unregisterFD`.
pub record SignalSetup : Type 0 where
  pub blocked : Bool
  pub signal_fd : Option ℕ
  pub registered : ℤ
  pub unregistered : ℤ

module _ (c : Container) where
  pub record Loop : Type 0 where
    pub handle_num : ℕ
    pub handlers : List Slot
    pub callbacks : List ℕ
    pub timeouts : TimeoutQueue.Queue c
    pub running : Bool
    -- The calls of `epoll_ctl`, the newest first.
    pub controls : List Control

  abbrev pub in_range : ℕ → Loop → Bool
  in_range fd l = leb min_fd fd && ltb fd (length l.handlers)

  -- `addHandler`, by what `registerFD` returns. `none` is the failed assertion that the slot is
  -- free. The table keeps the handler also where `registerFD` fails.
  unfoldable pub add_handler : ℕ → Option ℕ → Events → ℤ → Loop → Option (ℤ × Loop)
  add_handler fd cb events result l =
      if not (in_range fd l)
      then some (negsuc 0, l)
      else if (slot_at l.handlers fd).taken
      then none
      else some (
        result,
        record l {
          handle_num = l.handle_num + 1;
          handlers = set_slot l.handlers fd (record { taken = true; cb = cb });
          controls = register_fd fd (union events error_event) ∷ l.controls;
        },
      )

  unfoldable pub update_handler : ℕ → Events → ℤ → Loop → ℤ × Loop
  update_handler fd events result l =
      if not (in_range fd l)
      then (negsuc 0, l)
      else (result, record l { controls = modify_fd fd (union events error_event) ∷ l.controls })

  -- `--handle_num_` runs only where a handler is counted.
  unfoldable pub remove_handler : ℕ → ℤ → Loop → ℤ × Loop
  remove_handler fd result l =
      if not (in_range fd l)
      then (negsuc 0, l)
      else if not (slot_at l.handlers fd).taken
      then (pos 0, l)
      else (
        result,
        record l {
          handle_num = l.handle_num - 1;
          handlers = set_slot l.handlers fd free_slot;
          controls = unregister_fd fd ∷ l.controls;
        },
      )

  -- `addSignalHandler`: the descriptor, or `none` for a negative result, with the descriptors that it
  -- closes. The outer `none` is the failed assertion of `addHandler`.
  unfoldable pub add_signal_handler : SignalSetup → ℕ → Loop → Option (Option ℕ × List ℕ × Loop)
  add_signal_handler setup cb l =
      if not setup.blocked then some (none, [], l) else elim setup.signal_fd [
        | none ↦ some (none, [], l)
        | some sfd ↦ elim (add_handler sfd (some cb) read_event setup.registered l) [
          | none ↦ none
          | some (result, l') ↦
              if is_zero result
              then some (some sfd, [], l')
              else some (none, sfd ∷ [], (remove_handler sfd setup.unregistered l').1)
        ]
      ]

  unfoldable pub add_callback : ℕ → Loop → Loop
  add_callback cb l = record l { callbacks = l.callbacks ++ cb ∷ [] }

  unfoldable pub add_timeout : ℕ → ℕ → ℕ → Loop → ℕ × Loop
  add_timeout now delay cb l =
      let (id, q) = TimeoutQueue.add c now delay cb l.timeouts in (id, record l { timeouts = q })

  unfoldable pub remove_timeout : ℕ → Loop → Bool × Loop
  remove_timeout id l =
      let (erased, q) = TimeoutQueue.erase c id l.timeouts in (erased, record l { timeouts = q })

  unfoldable pub stop : Loop → Loop
  stop l = record l { running = false }

  -- What the callbacks, the timers and the handlers do to the loop.
  pub record Effects : Type 0 where
    pub on_callback : ℕ → Loop → Loop
    pub on_timer : ℕ → ℕ → ℕ → Loop → Loop
    pub on_event : ℕ → ℕ → Events → Loop → Loop

  unfoldable pub call_all : Effects → List ℕ → Loop → Loop
  call_all e [] l = l
  call_all e (cb ∷ cbs) l = call_all e cbs (e.on_callback cb l)

  -- The callbacks are swapped out first, so that those which they add wait for the next round.
  unfoldable pub run_callbacks : Effects → Loop → Loop
  run_callbacks e l = call_all e l.callbacks (record l { callbacks = [] })

  unfoldable pub fire_all : Effects → ℕ → List Event → Loop → Loop
  fire_all e now [] l = l
  fire_all e now (t ∷ ts) l = fire_all e now ts (e.on_timer t.callback t.id now l)

  -- `timeouts_.runOnce(now)`, with callbacks that may change the whole loop.
  unfoldable pub run_timers : Effects → ℕ → Loop → Loop
  run_timers e now l =
      let (expired, s) = c.take_until now l.timeouts.timeouts in
      fire_all e now expired (record l { timeouts = record (l.timeouts) { timeouts = s } })

  -- The wait for `poll`, in milliseconds.
  unfoldable pub poll_timeout : ℕ → Loop → ℕ
  poll_timeout now l =
      let next = next_expiration c l.timeouts in
      if not (is_nil l.callbacks)
      then 0
      else if ltb next (now + 60 * 1000)
      then if leb next now then 0 else next - now
      else 60 * 1000

  -- The events of one `poll`. `none` is the failed assertion on the descriptor.
  unfoldable pub dispatch : Effects → List (ℕ × Events) → Loop → Option Loop
  dispatch e [] l = some l
  dispatch e ((fd, events) ∷ polled) l =
      let slot = slot_at l.handlers fd in
      let called : Loop = elim slot.cb [ none ↦ l | some cb ↦ e.on_event cb fd events l ] in
      let rest = dispatch e polled (if slot.taken then called else l) in
      if in_range fd l then rest else none

  -- What the environment gives one round of `start`: the two readings of the clock, and the events
  -- that `poll` returns.
  pub record Round : Type 0 where
    pub timer_now : ℕ
    pub poll_now : ℕ
    pub polled : List (ℕ × Events)

  -- How `start` ends: by `stop`, with nothing left to do, by a failed assertion, or not within the
  -- rounds that are given.
  pub data Ending : Type 0 where
    stopped idle : Loop → Ending
    aborted : Ending
    goes_on : Loop → Ending

  -- The test of the second `break`.
  abbrev pub has_nothing : Loop → Bool
  has_nothing l = (l.handle_num == 0) && (is_nil l.callbacks && empty c l.timeouts)

  -- A round up to its two tests.
  unfoldable pub run_pending : Effects → ℕ → Loop → Loop
  run_pending e now l =
      let called = if is_nil l.callbacks then l else run_callbacks e l in
      if empty c called.timeouts then called else run_timers e now called

  unfoldable pub run_rounds : Effects → List Round → Loop → Ending
  run_rounds e [] l = goes_on l
  run_rounds e (r ∷ rs) l =
      let l' = run_pending e r.timer_now l in
      let rest = λ (m : Loop). run_rounds e rs m in
      if not l'.running
      then stopped l'
      else if has_nothing l'
      then idle l'
      else elim (dispatch e r.polled l') [ none ↦ aborted | some m ↦ rest m ]

  -- `IOLoop::start`: `none` is the result -1.
  unfoldable pub start : Effects → List Round → Loop → Option Ending
  start e rounds l =
      if l.running then none else some (run_rounds e rounds (record l { running = true }))
