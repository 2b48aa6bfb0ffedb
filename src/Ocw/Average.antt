-- ===== src/Ocw/Average.antt =====
-- The average price is the mean of the list, as long as the sum does not saturate.
use my_polkadot_orcale.Prelude.{
  ℕ, ◌+◌, ◌-◌, ◌*◌, ◌/◌, ◌≤◌, ◌<◌, ◌≡◌, refl, none, some, List, [], ◌∷◌, length, foldl, min,
  saturating_add32, u32_mod, All, arith,
}
use native.Mathlib.Nat.{le-div_iff_mul-le, div-le_of_le-mul, mul_comm}
use my_polkadot_orcale.Ocw.Prices.{saturating_sum, average_price}

abbrev pub sum : List ℕ → ℕ
sum [] = 0
sum (x ∷ xs) = x + sum xs

foldl-saturating :
    (xs : List ℕ) (a : ℕ)
    → a < u32_mod
    → foldl saturating_add32 a xs ≡ min (a + sum xs) (u32_mod - 1)
foldl-saturating [] a h = omega arith
foldl-saturating (x ∷ xs) a h = omega (arith, foldl-saturating xs (saturating_add32 a x))

pub saturating_sum-eq_min : (xs : List ℕ) → saturating_sum xs ≡ min (sum xs) (u32_mod - 1)
unfolding saturating_sum
saturating_sum-eq_min xs = omega (arith, foldl-saturating xs 0 (omega arith))

sum-le : (b : ℕ) (xs : List ℕ) → All (λ x. x ≤ b) xs → sum xs ≤ b * length xs
sum-le b [] h = omega arith
sum-le b (x ∷ xs) h = grind (arith, sum-le b xs h.1)

sum-ge : (b : ℕ) (xs : List ℕ) → All (λ x. b ≤ x) xs → b * length xs ≤ sum xs
sum-ge b [] h = omega arith
sum-ge b (x ∷ xs) h = grind (arith, sum-ge b xs h.1)

-- What the average is: none for no price, and else the sum, cut at the largest `u32`, by the number
-- of prices.
pub average_price_lem :
    (xs : List ℕ)
    → (xs ≡ [] → average_price xs ≡ none)
      × (0 < length xs → average_price xs ≡ some (min (sum xs) (u32_mod - 1) / length xs))
unfolding average_price
average_price_lem [] = ((λ _. refl), λ h. absurd (omega arith))
average_price_lem (x ∷ xs) = ((λ e. cc), λ _. rw (saturating_sum-eq_min (x ∷ xs)))

div_between : (b t s n : ℕ) → 0 < n → b * n ≤ s → s ≤ t * n → (b ≤ s / n) × (s / n ≤ t)
div_between b t s n pos lo hi =
    ((le-div_iff_mul-le pos).1 lo, div-le_of_le-mul n (rw (mul_comm n t) hi))

-- The average lies between the least and the greatest price, if the sum of the prices is a `u32`;
-- and never above the greatest price.
pub average_price-between :
    (b t a : ℕ) (xs : List ℕ)
    → All (λ x. b ≤ x) xs
    → All (λ x. x ≤ t) xs
    → average_price xs ≡ some a
    → (a ≤ t) × (sum xs < u32_mod → b ≤ a)
average_price-between b t a [] lo hi e = absurd (unfold average_price in cc)
average_price-between b t a (x ∷ xs) lo hi e =
    let ys = x ∷ xs in
    let n = length ys in
    let m = min (sum ys) (u32_mod - 1) in
    let above = div_between 0 t m n (omega arith) (omega arith) (omega (arith, sum-le t ys hi)) in
    let is_a : m / n ≡ a = ground (arith, (average_price_lem ys).1 (omega arith)) in
    (
      rw (← is_a) above.1,
      λ small.
          let whole : m ≡ sum ys = omega arith in
          rw (← is_a, whole)
            (div_between b t (sum ys) n (omega arith) (sum-ge b ys lo) (sum-le t ys hi)).0,
    )
