-- ===== src/Loop/Epoll.antt =====
-- `EPollImpl` of tornado/EPoll.h and tornado/EPoll.cpp: its descriptor and its array of events.
use simplesvr.Prelude.{
  ℕ, ◌*◌, ◌<◌, ◌≡◌, Bool, true, false, ◌&&◌, List, [], ◌∷◌, Option, some, none, arith, ltb,
  if◌then◌else◌, length, length-take,
}
use simplesvr.Loop.Polling.{Wait, ready, interrupted, broken, poll}

-- `epollfd_` and `events_num_`; `closed` has the descriptors given to `::close`.
pub record EpollImpl : Type 0 where
  pub epollfd : ℕ
  pub events_num : ℕ
  pub freed : Bool
  pub closed : List ℕ

-- `EPollImpl::EPollImpl`, by the result of `epoll_create1`. `none` is a failed assertion.
unfoldable pub new_epoll : Option ℕ → ℕ → Option EpollImpl
new_epoll none events_num = none
new_epoll (some fd) events_num =
    if ltb 0 events_num && ltb events_num (1024 * 100)
    then some (record { epollfd = fd; events_num = events_num; freed = false; closed = [] })
    else none

-- `EPollImpl::~EPollImpl`.
unfoldable pub delete_epoll : EpollImpl → EpollImpl
delete_epoll e = record e { freed = true; closed = e.epollfd ∷ e.closed }

-- Whatever a wait brings, the events that can be read are fewer than 102400, and the destructor closes the
-- descriptor of epoll, once.
pub poll_fits :
    (created : Option ℕ) (events_num : ℕ) (w : Wait) {e : EpollImpl}
    → new_epoll created events_num ≡ some e
    → (length (poll e.events_num w).1 < 1024 * 100) × ((delete_epoll e).closed ≡ e.epollfd ∷ [])
unfolding new_epoll poll delete_epoll
poll_fits none events_num w h = absurd (ground arith)
poll_fits (some fd) events_num (ready events) h = ground (arith, length-take events_num events)
poll_fits (some fd) events_num interrupted h = ground arith
poll_fits (some fd) events_num broken h = ground arith
