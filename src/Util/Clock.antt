-- ===== src/Util/Clock.antt =====
-- `TimeUtil` and `SocketUtil` of tornado/Util.h, by what the system calls return, and `parseStrTime` and
-- `daemon` of tornado/util/comm.cpp.
use simplesvr.Prelude.{
  ℕ, ◌+◌, ◌*◌, ◌/◌, ◌<◌, ◌≤◌, ◌≡◌, refl, Bool, true, false, Option, some, none, arith, ◌==◌, ◌||◌,
  if◌then◌else◌, bit_or,
}
use simplesvr.Prelude.Int.{ℤ, pos, negsuc}

-- `gettimeofday`: seconds, and microseconds below a million.
pub record TimeVal : Type 0 where
  pub tv_sec : ℕ
  pub tv_usec : ℕ

-- `curTimeMS`.
unfoldable pub cur_time_ms : TimeVal → ℕ
cur_time_ms t = t.tv_sec * 1000 + t.tv_usec / 1000

-- A clock that does not go back in microseconds does not go back in milliseconds; and what is lost is less than a
-- millisecond.
pub cur_time_ms_mono :
    (s t : TimeVal)
    → s.tv_sec * 1000000 + s.tv_usec ≤ t.tv_sec * 1000000 + t.tv_usec
    → (cur_time_ms s ≤ cur_time_ms t)
      × (cur_time_ms t * 1000 ≤ t.tv_sec * 1000000 + t.tv_usec)
      × (t.tv_sec * 1000000 + t.tv_usec < (cur_time_ms t + 1) * 1000)
unfolding cur_time_ms
cur_time_ms_mono s t h = omega arith

-- The values of `errno` that the macros name, as Linux has them.
abbrev pub eagain : ℕ
eagain = 11

abbrev pub epipe : ℕ
epipe = 32

abbrev pub econnaborted : ℕ
econnaborted = 103

abbrev pub econnreset : ℕ
econnreset = 104

abbrev pub etimedout : ℕ
etimedout = 110

abbrev pub einprogress : ℕ
einprogress = 115

-- `ERRNO_WOULDBLOCK`, `ERRNO_CONNRESET`, `ERRNO_INPROGRESS` and `ERRNO_ECONNABORTED`. `EWOULDBLOCK` is
-- `EAGAIN`.
unfoldable pub is_would_block : ℕ → Bool
is_would_block errno = errno == eagain

unfoldable pub is_conn_reset : ℕ → Bool
is_conn_reset errno =
    errno == econnreset || (errno == econnaborted || (errno == epipe || errno == etimedout))

unfoldable pub is_in_progress : ℕ → Bool
is_in_progress errno = errno == einprogress

unfoldable pub is_conn_aborted : ℕ → Bool
is_conn_aborted errno = errno == econnaborted

-- `O_NONBLOCK`.
abbrev pub o_nonblock : ℕ
o_nonblock = 2048

-- `setNonblock`: what it hands to `F_SETFL`. A failed `F_GETFL` gives -1, all bits, which stay.
unfoldable pub nonblock_flags : ℕ → ℕ
nonblock_flags flags = bit_or flags o_nonblock

-- `getSocketError`: the option `SO_ERROR`, or `errno` where it cannot be had.
unfoldable pub get_socket_error : Bool → ℕ → ℕ → ℕ
get_socket_error failed errno optval = if failed then errno else optval

-- An error of a socket is of one kind at most, but that an aborted connection counts as reset too.
pub errno_kinds :
    (errno : ℕ)
    → ((is_would_block errno ≡ true
          → (is_conn_reset errno ≡ false) × (is_in_progress errno ≡ false))
        × (is_in_progress errno ≡ true → is_conn_reset errno ≡ false)
        × (is_conn_aborted errno ≡ true → is_conn_reset errno ≡ true))
unfolding is_would_block is_conn_reset is_in_progress is_conn_aborted
errno_kinds errno = ground arith

-- `parseStrTime`, by what `strptime` and `mktime` make of the text. A null pointer and a text that does not
-- fit give 0.
unfoldable pub parse_str_time : Option (Option ℤ) → ℤ
parse_str_time none = pos 0
parse_str_time (some none) = pos 0
parse_str_time (some (some time)) = time

-- One call of `fork`: it fails, or returns in the parent or in the child.
pub data Fork : Type 0 where
  fork_fails in_parent in_child : Fork

-- What becomes of the process that called `daemon`: it goes on with a result, or has left by `exit`.
pub data Outcome : Type 0 where
  returns : ℤ → Outcome
  exits : Outcome

-- `daemon`, by whether `setsid` succeeds.
unfoldable pub daemon : Fork → Bool → Outcome
daemon fork_fails detached = returns (negsuc 0)
daemon in_parent detached = exits
daemon in_child detached = if detached then returns (pos 0) else returns (negsuc 1)

-- Success is reported in the child only, and once it leads a session of its own.
pub daemon_lem :
    (f : Fork) (detached : Bool)
    → daemon f detached ≡ returns (pos 0)
    → (f ≡ in_child) × (detached ≡ true)
unfolding daemon
daemon_lem fork_fails detached h = absurd (ground arith)
daemon_lem in_parent detached h = absurd (ground arith)
daemon_lem in_child true h = (refl, refl)
daemon_lem in_child false h = absurd (ground arith)
