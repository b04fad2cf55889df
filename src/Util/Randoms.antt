-- ===== src/Util/Randoms.antt =====
-- `Random` of tornado/util/random.h, for numbers without a sign. The distribution and the generator of
-- the standard library are parameters.
use simplesvr.Prelude.{
  ℕ, ◌-◌, ◌≡◌, ◌≤◌, ◌<◌, refl, zero, suc, List, [], ◌∷◌, length, arith, leb, ◌==◌, if◌then◌else◌,
}
use simplesvr.Prelude.Partial.{All}

-- `std::uniform_int_distribution`, of which both ends can come.
pub record Uniform : Type 1 where
  pub Generator : Type 0
  pub draw : ℕ → ℕ → Generator → ℕ × Generator
  pub draw-bounds :
      (low high : ℕ) (g : Generator)
      → low ≤ high
      → (low ≤ (draw low high g).0) × ((draw low high g).0 ≤ high)

module _ (u : Uniform) where
  open u use {Generator, draw, draw-bounds}

  -- `rand`, with one bound and with two.
  unfoldable pub rand_below : ℕ → Generator → ℕ × Generator
  rand_below max g = if max == 0 then (0, g) else draw 0 (max - 1) g

  unfoldable pub rand_between : ℕ → ℕ → Generator → ℕ × Generator
  rand_between min max g = if leb max min then (0, g) else draw min (max - 1) g

  -- With one bound a number lies below it, and with two from the first up to, without, the second;
  -- where there is no such number the result is 0 and the generator has not been used.
  pub rand-bounds :
      (min max : ℕ) (g : Generator)
      → (0 < max → (rand_below max g).0 < max)
        × (min < max → (min ≤ (rand_between min max g).0) × ((rand_between min max g).0 < max))
        × (max ≤ min → rand_between min max g ≡ (0, g))
  unfolding rand_below rand_between
  rand-bounds min max g = ground (arith, draw-bounds 0 (max - 1) g, draw-bounds min (max - 1) g)

-- `std::discrete_distribution`: an index of the weights, and 0 where there are none. A weight is what
-- the caller has, a `double`.
pub record Weighted (W : Type 0) : Type 1 where
  pub State : Type 0
  pub pick : List W → State → ℕ × State
  pub pick-bounds : (ws : List W) (g : State) → 0 < length ws → (pick ws g).0 < length ws
  pub pick-empty : (g : State) → (pick [] g).0 ≡ 0

module _ {W : Type 0} (d : Weighted W) where
  open d use {State, pick, pick-bounds, pick-empty}

  -- `Random::weightRand`, in both forms.
  unfoldable pub weight_rand : List W → State → ℕ × State
  weight_rand weights g = pick weights g

  -- `WeightRand`: the weights and a generator of its own.
  pub record WeightRand : Type 0 where
    pub weights : List W
    pub rgen : State

  -- `WeightRand::rand`.
  unfoldable pub rand : WeightRand → ℕ × WeightRand
  rand r = let (i, g) = weight_rand r.weights r.rgen in (i, record r { rgen = g })

  unfoldable pub rand_many : ℕ → WeightRand → List ℕ × WeightRand
  rand_many zero r = ([], r)
  rand_many (suc n) r = let (i, r1) = rand r in let (is, r2) = rand_many n r1 in (i ∷ is, r2)

  -- Of weights that are not empty, every number that comes is an index, however many are drawn, and the
  -- weights stay. Of none it is 0, which is no index.
  pub rand_many-bounds :
      (n : ℕ) (r : WeightRand)
      → 0 < length r.weights
      → All (λ i. i < length r.weights) (rand_many n r).0 × ((rand_many n r).1.weights ≡ r.weights)
  unfolding rand_many rand weight_rand
  rand_many-bounds zero r h = (tt, refl)
  rand_many-bounds (suc n) r h =
      let (ih, kept) = rand_many-bounds n (rand r).1 h in
      ((pick-bounds r.weights r.rgen h, ih), kept)

  pub weight_rand_empty : (g : State) → ¬ ((weight_rand [] g).0 < length {A = W} [])
  unfolding weight_rand
  weight_rand_empty g h = omega (arith, pick-empty g)
