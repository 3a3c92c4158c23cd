-- ===== src/AverageCounter.antt =====
-- public/average_counter.h: the sum, the number, the smallest and the largest of some values, which
-- are not negative. The sums stay within 64 bits.
use frame_work.Prelude.{
  ℕ, ◌+◌, ◌/◌, ◌≤◌, ◌<◌, ◌≡◌, inl, inr, refl, ap, List, [], ◌∷◌, ltb, ◌==◌, if◌then◌else◌, length,
  All, All-map, Bool-cases, arith,
}

pub record Counter : Type 0 where
  pub key : ℕ
  pub value : ℕ

pub record AverageCounter : Type 0 where
  pub total : ℕ
  pub count : ℕ
  pub min : Counter
  pub max : Counter

-- clear, and the constructor
abbrev pub cleared : AverageCounter
cleared = record {
  total = 0;
  count = 0;
  min = record { key = 99999999; value = 99999999 };
  max = record { key = 0; value = 0 };
}

unfoldable pub add : AverageCounter → ℕ → ℕ → AverageCounter
add c key value = record {
  total = c.total + value;
  count = c.count + 1;
  max = if ltb c.max.value value then record { key = key; value = value } else c.max;
  min = if ltb value c.min.value then record { key = key; value = value } else c.min;
}

unfoldable pub get_avg_value : AverageCounter → ℕ
get_avg_value c = if c.count == 0 then 0 else c.total / c.count

-- The counter after calls of add, the last one first.
abbrev pub after : List Counter → AverageCounter
after [] = cleared
after (x ∷ xs) = add (after xs) x.key x.value

abbrev pub sum : List Counter → ℕ
sum [] = 0
sum (x ∷ xs) = sum xs + x.value

-- What a counter says of the values that it was given.
pub record Sums (xs : List Counter) (c : AverageCounter) : Type 0 where
  pub total : c.total ≡ sum xs
  pub number : c.count ≡ length xs
  pub above : All (λ x. x.value ≤ c.max.value) xs
  pub below : All (λ x. c.min.value ≤ x.value) xs

add-max :
    (c : AverageCounter) (k v : ℕ)
    → (c.max.value ≤ (add c k v).max.value) × (v ≤ (add c k v).max.value)
unfolding add
add-max c k v = elim (Bool-cases (ltb c.max.value v)) [
  | inl q ↦ let h : c.max.value < v = ground arith in simp q (omega arith, omega arith)
  | inr q ↦ let h : v ≤ c.max.value = ground arith in simp q (omega arith, h)
]

add-min :
    (c : AverageCounter) (k v : ℕ)
    → ((add c k v).min.value ≤ c.min.value) × ((add c k v).min.value ≤ v)
unfolding add
add-min c k v = elim (Bool-cases (ltb v c.min.value)) [
  | inl q ↦ let h : v < c.min.value = ground arith in simp q (omega arith, omega arith)
  | inr q ↦ let h : c.min.value ≤ v = ground arith in simp q (omega arith, h)
]

-- After clear and calls of add, the total and the count are those of the values added, get_max has
-- a value that none of them is above, and get_min one that none of them is below.
pub after-Sums : (xs : List Counter) → Sums xs (after xs)
unfolding add
after-Sums [] = record { total = refl; number = refl; above = tt; below = tt }
after-Sums (x ∷ xs) =
    let s = after-Sums xs in
    let (a, b) = add-max (after xs) x.key x.value in
    let (d, e) = add-min (after xs) x.key x.value in
    record {
      total = ap (λ t. t + x.value) s.total;
      number = omega (arith, s.number);
      above = (b, All-map _ _ xs (λ y h. omega (arith, h, a)) s.above);
      below = (e, All-map _ _ xs (λ y h. omega (arith, h, d)) s.below);
    }
