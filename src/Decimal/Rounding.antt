-- ===== src/Decimal/Rounding.antt =====
-- How far the two roundings of the decimal context are from the exact value, and that rounding a
-- quotient to grosze by way of 28 digits is rounding it once.
use retrievershop_suite.Prelude.{
  ℕ, zero, suc, ◌+◌, ◌-◌, ◌*◌, ◌/◌, ◌%◌, ◌^◌, ◌≤◌, ◌<◌, ◌≡◌, refl, subst, ◌⊎◌, inl, inr, false,
  arith, ltb, lt→ltb, Bool-cases, ◌∙◌,
}
use native.Mathlib.Decide.{dec_le}
use native.Mathlib.Nat.{
  div-add-mod, mod-lt, pow-suc, pow-le-pow_right, mul-le-mul_left, mul-lt-mul_of_pos_left,
  lt_of_mul-lt-mul_left, le_of_mul-le-mul_left, le_trans,
}
use retrievershop_suite.Decimal.{
  grosze, half_even, half_up, scale, digits, div, excess, mul, quantize,
}

-- The nearest integer, with no multiplication left in it: n = d * q + r.
abbrev pub Near : ℕ → ℕ → ℕ → Type 0
Near x n d = (2 * (x * d) ≤ 2 * n + d) × (2 * n ≤ 2 * (x * d) + d)

half_even-cases :
    (n d : ℕ)
    → 0 < d
    → ((half_even n d ≡ n / d) × (2 * (n % d) ≤ d))
      ⊎ ((half_even n d ≡ n / d + 1) × (d ≤ 2 * (n % d)))
unfolding half_even
half_even-cases n d h = ground arith

pub half_even-Near : (n d : ℕ) → 0 < d → Near (half_even n d) n d
half_even-Near n d h = elim (half_even-cases n d h) [
  | inl (e, r) ↦ rw e (omega (arith, div-add-mod n d), omega (arith, div-add-mod n d))
  | inr (e, r) ↦
      rw e (omega (arith, div-add-mod n d, mod-lt n h), omega (arith, div-add-mod n d, mod-lt n h))
]

pub half_up-bounds :
    (n d : ℕ) → 0 < d → (2 * (half_up n d * d) ≤ 2 * n + d) × (2 * n < 2 * (half_up n d * d) + d)
unfolding half_up
half_up-bounds n d h =
    ground (arith, div-add-mod (2 * n + d) (2 * d), mod-lt (2 * n + d) {m = 2 * d} (omega arith))

-- The bounds of `half_up-bounds` determine the result.
pub half_up_of_bounds :
    (x n d : ℕ) → 0 < d → 2 * (x * d) ≤ 2 * n + d → 2 * n < 2 * (x * d) + d → half_up n d ≡ x
half_up_of_bounds x n d h lo hi =
    let (lo', hi') = half_up-bounds n d h in
    let y = half_up n d in
    let a : x < y + 1 = lt_of_mul-lt-mul_left d (omega arith) in
    let b : y < x + 1 = lt_of_mul-lt-mul_left d (omega arith) in omega arith

pub scale-ge : (s t n d : ℕ) → t ≤ s → n * 10 ^ t < 10 ^ 28 * d → t ≤ scale s n d
unfolding scale
scale-ge zero t n d h b = omega arith
scale-ge (suc s) t n d h b = elim (Bool-cases (ltb (n * 10 ^ suc s) (10 ^ 28 * d))) [
  | inl fits ↦ rw (fits, scale) h
  | inr too_big ↦ rw (too_big, scale) (scale-ge s t n d (below too_big) b)
]
  where
    below : ltb (n * 10 ^ suc s) (10 ^ 28 * d) ≡ false → t ≤ s
    below f = elim (dec_le t s) [
      | yes le ↦ le
      | no gt ↦
          let e : t ≡ suc s = omega arith in
          let b' : n * 10 ^ suc s < 10 ^ 28 * d = subst (λ k. n * 10 ^ k < 10 ^ 28 * d) e b in
          cc (lt→ltb _ _ b')
    ]

-- A power of ten from the first on is even.
pub ten_pow_even : (s : ℕ) → 0 < s → 10 ^ s ≡ 2 * (5 * 10 ^ (s - 1))
ten_pow_even zero h = absurd (omega arith)
ten_pow_even (suc s) h = let e : suc s - 1 ≡ s = omega arith in rw (e, pow-suc) (omega arith)

-- The core: `x` is n * p / d rounded to an integer in any way to the nearest, and p is even and
-- larger than d. Then rounding x / p is rounding n / d.
half_up_twice :
    (x n d h : ℕ) → 0 < d → d < 2 * h → Near x (n * (2 * h)) d → half_up x (2 * h) ≡ half_up n d
half_up_twice x n d h pos big (lo, hi) =
    let m = half_up n d in
    let (lo', hi') = half_up-bounds n d pos in
    let above = mul-le-mul_left h lo' in
    let below = mul-le-mul_left (2 * h) hi' in
    let a : m * (4 * h) ≤ 2 * x + 2 * h + 1 = le_of_mul-le-mul_left {k = d} (omega arith) pos in
    let b : 2 * x < m * (4 * h) + 2 * h = lt_of_mul-lt-mul_left d (omega arith) in
    half_up_of_bounds m x (2 * h) (omega arith) (omega arith) (omega arith)

-- Ten to a power below 28 places, and the quotient at them.
half_up_scaled :
    (x n d s : ℕ)
    → 0 < d
    → 0 < s
    → d < 10 ^ s
    → Near x (n * 10 ^ s) d
    → half_up x (10 ^ s) ≡ half_up n d
half_up_scaled x n d s pos spos big h =
    let e = ten_pow_even s spos in
    rw e (half_up_twice x n d (5 * 10 ^ (s - 1)) pos (rw e at big) (rw e at h))

-- Scaling both sides of a rounded quotient changes nothing.
half_up_cancel : (n d k : ℕ) → 0 < d → 0 < k → half_up (n * k) (d * k) ≡ half_up n d
half_up_cancel n d k dpos kpos =
    let m = half_up n d in
    let (lo, hi) = half_up-bounds n d dpos in
    let above = mul-le-mul_left k lo in
    let below = mul-lt-mul_of_pos_left hi kpos in
    half_up_of_bounds m (n * k) (d * k) (omega (arith, mul-lt-mul_of_pos_left {m = 0} kpos dpos))
      (omega arith) (omega arith)

pub ten_pow_plus_two : (s : ℕ) → 10 ^ (2 + s) ≡ 10 ^ s * 100
ten_pow_plus_two s =
    let e : 2 + s ≡ suc (suc s) = omega arith in rw (e, pow-suc) (rw pow-suc (omega arith))

-- The number of places a quotient is rounded to.
pub places_of : ℕ → ℕ → ℕ
places_of n d = scale (28 + digits d d) n d

quantize-div-eq :
    (n d : ℕ)
    → quantize (div (grosze n) d)
      ≡ half_up (half_even (n * 10 ^ places_of n d) d * 100) (10 ^ (2 + places_of n d))
unfolding quantize div places_of
quantize-div-eq n d = refl

-- A quotient of grosze, at its places.
pub div-eq :
    (n d : ℕ)
    → div (grosze n) d
      ≡ record { coeff = half_even (n * 10 ^ places_of n d) d; places = 2 + places_of n d }
unfolding div places_of
div-eq n d = refl

pub places_of-ge : (n d : ℕ) → n < 10 ^ 14 * d → 14 ≤ places_of n d
unfolding places_of
places_of-ge n d h = scale-ge (28 + digits d d) 14 n d (omega arith) (omega arith)

-- For an amount of fewer than 10 ^ 14 times d grosze, d below 10 ^ 14, the rounding to 28 digits
-- does not show: the quotient in grosze is the exact one, rounded once, halves up.
pub quantize-div :
    (n d : ℕ) → 0 < d → d < 10 ^ 14 → n < 10 ^ 14 * d → quantize (div (grosze n) d) ≡ half_up n d
quantize-div n d pos dsmall nsmall =
    let s = places_of n d in
    let ge = places_of-ge n d nsmall in
    let big : d < 10 ^ s = le_trans dsmall (pow-le-pow_right {n = 10} (omega arith) ge) in
    rw (quantize-div-eq n d, ten_pow_plus_two s)
      (half_up_cancel _ _ 100 (omega arith) (omega arith)
        ∙ half_up_scaled _ n d s pos (omega arith) big (half_even-Near (n * 10 ^ s) d pos))

excess_small : (f n : ℕ) → n < 10 ^ 28 → excess f n ≡ 0
unfolding excess
excess_small zero n h = refl
excess_small (suc f) n h = rw (lt→ltb n (10 ^ 28) h, excess)

half_even_one : (n : ℕ) → half_even n 1 ≡ n
half_even_one n = let (lo, hi) = half_even-Near n 1 (omega arith) in omega arith

mul-eq :
    (n p k : ℕ)
    → mul (record { coeff = n; places = p }) k ≡ record {
      coeff = half_even (n * k) (10 ^ excess (n * k) (n * k)) * 10 ^ excess (n * k) (n * k);
      places = p;
    }
unfolding mul
mul-eq n p k = refl

-- A product that fits in 28 digits is exact.
pub mul_exact :
    (n p k : ℕ)
    → n * k < 10 ^ 28
    → mul (record { coeff = n; places = p }) k ≡ record { coeff = n * k; places = p }
mul_exact n p k h =
    let e : half_even (n * k) 1 * 1 ≡ n * k = omega (arith, half_even_one (n * k)) in
    rw (mul-eq n p k, excess_small (n * k) (n * k) h, e)
