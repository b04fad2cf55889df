-- ===== src/Util/Guards.antt =====
-- tornado/util/scople_guard.h: a guard that runs its function at the end of a scope.
use simplesvr.Prelude.{
  ℕ, zero, suc, ◌+◌, ◌≡◌, Bool, true, false, List, [], ◌∷◌, ◌++◌, arith, if◌then◌else◌,
}

-- `ScopeGuardImpl`: `dismissed_`; the function is the same for a guard and those moved from it.
pub record Guard : Type 0 where
  pub dismissed : Bool

abbrev pub make_guard : Guard
make_guard = record { dismissed = false }

-- The move constructor: the new guard, and the other.
unfoldable pub move_guard : Guard → Guard × Guard
move_guard other = (record { dismissed = other.dismissed }, record { dismissed = true })

unfoldable pub dismiss : Guard → Guard
dismiss g = record { dismissed = true }

-- The destructor: how often it runs the function.
unfoldable pub destroy_guard : Guard → ℕ
destroy_guard g = if g.dismissed then 0 else 1

-- All guards that a chain of moves leaves, the newest first.
abbrev pub moves : ℕ → Guard → List Guard
unfolding move_guard
moves zero g = g ∷ []
moves (suc k) g = let (new, old) = move_guard g in moves k new ++ old ∷ []

abbrev pub destroy_all : List Guard → ℕ
unfolding destroy_guard
destroy_all [] = 0
destroy_all (g ∷ gs) = destroy_guard g + destroy_all gs

destroy_all-append : (gs hs : List Guard) → destroy_all (gs ++ hs) ≡ destroy_all gs + destroy_all hs
unfolding destroy_guard
destroy_all-append [] hs = omega arith
destroy_all-append (g ∷ gs) hs = ground (arith, destroy_all-append gs hs)

-- However often a guard is moved, its function runs once when all the guards of the chain are
-- destroyed, and not at all if it had been dismissed.
pub destroy_all-moves :
    (k : ℕ) (g : Guard) → destroy_all (moves k g) ≡ (if g.dismissed then 0 else 1)
unfolding move_guard destroy_guard
destroy_all-moves zero g = ground arith
destroy_all-moves (suc k) g = ground (
  arith,
  destroy_all-append (moves k (record { dismissed = g.dismissed }))
      (record { dismissed = true } ∷ []),
  destroy_all-moves k (record { dismissed = g.dismissed }),
)
