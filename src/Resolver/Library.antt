-- ===== src/Resolver/Library.antt =====
-- `CAresLibInit` of tornado/Resolver.cpp: the c-ares library is set up once for the process, by the first
-- resolver that can.
use simplesvr.Prelude.{
  ℕ, ◌+◌, ◌≤◌, ◌≡◌, refl, Bool, true, false, List, [], ◌∷◌, arith, if◌then◌else◌,
}

-- `init_`, and how often the library was set up and cleaned up.
pub record LibInit : Type 0 where
  pub ready : Bool
  pub inits : ℕ
  pub cleanups : ℕ

abbrev pub new_lib : LibInit
new_lib = record { ready = false; inits = 0; cleanups = 0 }

-- `init_lib`, by whether `ares_library_init` succeeds: whether it returns, and does not throw.
unfoldable pub init_lib : Bool → LibInit → Bool × LibInit
init_lib succeeds l =
    if l.ready
    then (true, l)
    else if succeeds
    then (true, record l { ready = true; inits = l.inits + 1 })
    else (false, l)

-- `~CAresLibInit`.
unfoldable pub cleanup_lib : LibInit → LibInit
cleanup_lib l = if l.ready then record l { ready = false; cleanups = l.cleanups + 1 } else l

unfoldable pub init_all : List Bool → LibInit → LibInit
init_all [] l = l
init_all (succeeds ∷ rest) l = init_all rest (init_lib succeeds l).1

-- Once it is set up, the library is so once, and was not cleaned up.
IsReady : LibInit → Type 0
IsReady l = (l.inits ≡ (if l.ready then 1 else 0)) × (l.cleanups ≡ 0)

init_all-IsReady : (calls : List Bool) (l : LibInit) → IsReady l → IsReady (init_all calls l)
unfolding init_all init_lib IsReady
init_all-IsReady [] l v = v
init_all-IsReady (succeeds ∷ rest) l v =
    init_all-IsReady rest (init_lib succeeds l).1 (ground arith)

-- However many resolvers are made, and however the set-up goes, at the end of the process the library was
-- set up at most once, and cleaned up as often.
pub cleanup_lib_lem :
    (calls : List Bool)
    → let l = cleanup_lib (init_all calls new_lib) in (l.inits ≤ 1) × (l.cleanups ≡ l.inits)
unfolding cleanup_lib IsReady
cleanup_lib_lem calls = ground (arith, init_all-IsReady calls new_lib (refl, refl))
