-- ===== src/Decimal.antt =====
-- Python's `Decimal` as the money code uses it: a coefficient of 10 ^ -places. Division and
-- multiplication round to the 28 digits of the default context, halves to even; `quantize` rounds
-- to grosze, halves up. The amounts are columns Numeric(12, 2): they have no sign, and what the
-- code adds and subtracts stays below 28 digits, so sums and differences are exact.
pub mod Rounding
use retrievershop_suite.Prelude.{
  ℕ, zero, suc, ◌+◌, ◌-◌, ◌*◌, ◌/◌, ◌%◌, ◌^◌, Bool, true, false, ltb, ◌==◌, ◌≡◌, refl,
  if◌then◌else◌,
}

pub record Decimal : Type 0 where
  pub coeff : ℕ
  pub places : ℕ

-- `Decimal(n)` of an integer, and an amount of grosze as the database hands it over.
abbrev pub of_int : ℕ → Decimal
of_int n = record { coeff = n; places = 0 }

abbrev pub grosze : ℕ → Decimal
grosze n = record { coeff = n; places = 2 }

-- n / d to the nearest integer: halves to even, or up.
unfoldable pub half_even : ℕ → ℕ → ℕ
half_even n d =
    let q = n / d in
    let r = n % d in
    if ltb (2 * r) d then q else if ltb d (2 * r) then q + 1 else if q % 2 == 0 then q else q + 1

unfoldable pub half_up : ℕ → ℕ → ℕ
half_up n d = (2 * n + d) / (2 * d)

-- The largest s up to the bound at which n * 10 ^ s / d stays below 28 digits.
unfoldable pub scale : ℕ → ℕ → ℕ → ℕ
scale zero n d = 0
scale (suc s) n d = elim (ltb (n * 10 ^ suc s) (10 ^ 28 * d)) [ true ↦ suc s | false ↦ scale s n d ]

-- The number of decimal digits, on as much fuel as the number itself.
unfoldable pub digits : ℕ → ℕ → ℕ
digits zero n = 0
digits (suc f) n = elim (n == 0) [ true ↦ 0 | false ↦ suc (digits f (n / 10)) ]

-- `a / Decimal(d)`
unfoldable pub div : Decimal → ℕ → Decimal
unfolding scale digits half_even
div a d =
    let s = scale (28 + digits d d) a.coeff d in
    record { coeff = half_even (a.coeff * 10 ^ s) d; places = a.places + s }

-- How many digits a coefficient has beyond 28, on as much fuel as the coefficient.
unfoldable pub excess : ℕ → ℕ → ℕ
excess zero n = 0
excess (suc f) n = elim (ltb n (10 ^ 28)) [ true ↦ 0 | false ↦ suc (excess f (n / 10)) ]

-- `a * Decimal(n)`: digits beyond 28 are rounded away, and zeros stand in their places.
unfoldable pub mul : Decimal → ℕ → Decimal
unfolding excess half_even
mul a n =
    let c = a.coeff * n in
    let unit = 10 ^ excess c c in record { coeff = half_even c unit * unit; places = a.places }

-- `a - b` where b is not larger.
unfoldable pub sub : Decimal → Decimal → Decimal
sub a b = record {
  coeff = a.coeff * 10 ^ (b.places - a.places) - b.coeff * 10 ^ (a.places - b.places);
  places = a.places + (b.places - a.places);
}

-- `a + b`
unfoldable pub add : Decimal → Decimal → Decimal
add a b = record {
  coeff = a.coeff * 10 ^ (b.places - a.places) + b.coeff * 10 ^ (a.places - b.places);
  places = a.places + (b.places - a.places);
}

-- `a.quantize(Decimal("0.01"), rounding=ROUND_HALF_UP)`, in grosze.
unfoldable pub quantize : Decimal → ℕ
unfolding half_up
quantize a = half_up (a.coeff * 100) (10 ^ a.places)

third : quantize (mul (div (grosze 1000) 3) 2) ≡ 667
unfolding quantize mul div
third = refl

half : quantize (div (grosze 1) 2) ≡ 1
unfolding quantize div
half = refl
