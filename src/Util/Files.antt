-- ===== src/Util/Files.antt =====
-- tornado/util/file.h: a file descriptor that closes itself, and `flock` on it. What `open` and `flock`
-- return is given.
use simplesvr.Prelude.{
  ℕ, zero, suc, ◌≡◌, ◌≢◌, refl, Bool, true, false, List, [], ◌∷◌, ◌++◌, Option, none, some, arith,
  replicate, if◌then◌else◌,
}

-- `fd_`, where `none` is -1.
pub record File : Type 0 where
  pub fd : Option ℕ

-- The descriptors that have been given to `::close`, the newest first.
abbrev pub Closed : Type 0
Closed = List ℕ

-- The constructor, by what `::open` returns if there is a name.
abbrev pub open_file : Bool → Option ℕ → File
open_file named result = record { fd = if named then result else none }

unfoldable pub close : File → Closed → File × Closed
close f closed = elim f.fd [ none ↦ (f, closed) | some fd ↦ (record { fd = none }, fd ∷ closed) ]

-- The move constructor: the new file, what is left of the other, and what it has closed.
unfoldable pub move_construct : File → Closed → File × File × Closed
unfolding close
move_construct other closed =
    let (other', closed') = close other closed in (record { fd = other.fd }, other', closed')

-- The move assignment from another object.
unfoldable pub move_assign : File → File → Closed → File × File × Closed
unfolding close
move_assign this other closed =
    let (this', closed') = close this closed in
    (record { fd = other.fd }, record { fd = none }, closed')

-- The destructor.
abbrev pub destroy : File → Closed → Closed
unfolding close
destroy f closed = (close f closed).1

-- One call of `flock`.
pub data Flock : Type 0 where
  locked interrupted would_block fails : Flock

-- `STATE`, the result of the locks.
pub data State : Type 0 where
  error succ is_locked : State

-- `doLock` and `doTryLock` over the results to come of `flock`; `none` is a call that still waits.
unfoldable pub do_lock : List Flock → Option State
do_lock [] = none
do_lock (locked ∷ rest) = some succ
do_lock (interrupted ∷ rest) = do_lock rest
do_lock (would_block ∷ rest) = some error
do_lock (fails ∷ rest) = some error

unfoldable pub do_try_lock : List Flock → Option State
do_try_lock [] = none
do_try_lock (locked ∷ rest) = some succ
do_try_lock (interrupted ∷ rest) = do_try_lock rest
do_try_lock (would_block ∷ rest) = some is_locked
do_try_lock (fails ∷ rest) = some error

-- The result of a call of `flock` that was not interrupted, for `doLock` and for `doTryLock`.
abbrev pub lock_result : Bool → Flock → Option State
lock_result try locked = some succ
lock_result try interrupted = none
lock_result try would_block = some (if try then is_locked else error)
lock_result try fails = some error

last_lock :
    (last : Flock) (rest : List Flock)
    → last ≢ interrupted
    → (do_lock (last ∷ rest) ≡ lock_result false last)
      × (do_try_lock (last ∷ rest) ≡ lock_result true last)
unfolding do_lock do_try_lock
last_lock locked rest other = (refl, refl)
last_lock interrupted rest other = absurd (other refl)
last_lock would_block rest other = (refl, refl)
last_lock fails rest other = (refl, refl)

-- However often it is interrupted, a lock returns with the first call that is not: an error, success,
-- or, for a lock that only tries, that another holds it.
pub do_lock_interrupted :
    (k : ℕ) (last : Flock) (rest : List Flock)
    → last ≢ interrupted
    → (do_lock (replicate k interrupted ++ last ∷ rest) ≡ lock_result false last)
      × (do_try_lock (replicate k interrupted ++ last ∷ rest) ≡ lock_result true last)
unfolding do_lock do_try_lock
do_lock_interrupted zero last rest other = last_lock last rest other
do_lock_interrupted (suc k) last rest other = do_lock_interrupted k last rest other

-- The move constructor closes the descriptor that the new file holds: it closes it again when it is
-- destroyed.
pub move_construct_lem :
    (fd : ℕ) (other : File) (closed : Closed)
    → other.fd ≡ some fd
    → let (new, other', closed') = move_construct other closed in
      (new.fd ≡ some fd)
      × (closed' ≡ fd ∷ closed)
      × (destroy new (destroy other' closed') ≡ fd ∷ fd ∷ closed)
unfolding move_construct close
move_construct_lem fd other closed e = ground arith

-- The move assignment hands the descriptor on: by the time both files are destroyed, each of the two
-- descriptors has been closed once.
pub move_assign_lem :
    (fd fd' : ℕ) (this other : File) (closed : Closed)
    → this.fd ≡ some fd
    → other.fd ≡ some fd'
    → let (this', other', closed') = move_assign this other closed in
      (this'.fd ≡ some fd') × (destroy this' (destroy other' closed') ≡ fd' ∷ fd ∷ closed)
unfolding move_assign close
move_assign_lem fd fd' this other closed e e' = ground arith
