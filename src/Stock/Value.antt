-- ===== src/Stock/Value.antt =====
-- What a sale takes from the value in stock (magazyn/services/stock_records.py), to the grosz.
use retrievershop_suite.Prelude.{
  ℕ, ◌+◌, ◌-◌, ◌*◌, ◌^◌, ◌≤◌, ◌<◌, ◌≡◌, refl, ap, false, ltb, arith, inl, inr, Bool-cases, lt→ltb,
  ltb→lt, ◌∙◌,
}
use native.Mathlib.Nat.{
  mul-le-mul_left, mul-lt-mul_of_pos_left, lt_of_mul-lt-mul_left, le_trans, pow-le-pow_right,
}
use retrievershop_suite.Decimal.{Decimal, grosze, half_even, half_up, div, sub, quantize, scale}
use retrievershop_suite.Decimal.Rounding.{
  Near, half_up-bounds, half_up_of_bounds, quantize-div, mul_exact, half_even-Near, places_of,
  places_of-ge, ten_pow_plus_two, div-eq,
}
use retrievershop_suite.Stock.Rows.{ProductSize}
use retrievershop_suite.Stock.Records.{NumericColumn, purchase_share, take_out}

-- The amounts a row can hold: a value that fits the column Numeric(12, 2), a sane quantity.
pub record FitsColumns (ps : ProductSize) : Type 0 where
  pub in_stock : 0 < ps.quantity
  pub quantity_fits : ps.quantity < 10 ^ 14
  pub value_fits : ps.stock_value < 10 ^ 12

module _ (ps : ProductSize) (f : FitsColumns ps) (k : ℕ) (enough : k ≤ ps.quantity) where
  share_product_small : ps.stock_value * k < 10 ^ 14 * ps.quantity
  share_product_small =
      let a : ps.stock_value * k ≤ ps.stock_value * ps.quantity =
        mul-le-mul_left ps.stock_value enough in
      let b : ps.quantity * ps.stock_value < ps.quantity * 10 ^ 14 =
        mul-lt-mul_of_pos_left (omega (arith, f.value_fits)) f.in_stock in
      omega arith

  purchase_share-eq : purchase_share ps k ≡ div (grosze (ps.stock_value * k)) ps.quantity
  unfolding purchase_share
  purchase_share-eq =
      ap (λ d. div d ps.quantity)
        (mul_exact ps.stock_value 2 k (omega (arith, share_product_small, f.quantity_fits)))

  -- The cost that the sale of `k` pieces is recorded with is the exact share of the value in
  -- stock, rounded once to grosze, halves up.
  pub quantize-purchase_share :
      quantize (purchase_share ps k) ≡ half_up (ps.stock_value * k) ps.quantity
  quantize-purchase_share =
      rw purchase_share-eq (
        quantize-div (ps.stock_value * k) ps.quantity f.in_stock f.quantity_fits
          share_product_small)

sub-grosze :
    (v c s : ℕ)
    → sub (grosze v) (record { coeff = c; places = 2 + s })
      ≡ record { coeff = v * 10 ^ s - c; places = 2 + s }
unfolding sub
sub-grosze v c s =
    let a : 2 + s - 2 ≡ s = omega arith in
    let b : 2 - (2 + s) ≡ 0 = omega arith in
    let e : c * 10 ^ (2 - (2 + s)) ≡ c = rw b (omega arith) in rw (e, a)

-- The column keeps `x` of the `rest` that stays when `m`, the quotient n / q at a scale, goes out:
-- at the whole scale, `x` is as Near to v - n / q as rounding once would be.
kept_rest_bounds :
    (v n m q scale rest x : ℕ)
    → 0 < q
    → q < scale
    → Near m (n * scale) q
    → rest + m ≡ v * scale
    → 2 * (x * scale) ≤ 2 * rest + scale
    → 2 * rest ≤ 2 * (x * scale) + scale
    → (2 * (x * q) + 2 * n ≤ 2 * (v * q) + q) × (2 * (v * q) ≤ 2 * (x * q) + 2 * n + q)
kept_rest_bounds v n m q scale rest x pos big (lo, hi) e below above =
    let below' = mul-le-mul_left q below in
    let above' = mul-le-mul_left q above in
    let e' = ap (λ (t : ℕ). q * t) e in
    let a : 2 * (x * q) + 2 * n < 2 * (v * q) + q + 1 = lt_of_mul-lt-mul_left scale (omega arith) in
    let b : 2 * (v * q) < 2 * (x * q) + 2 * n + q + 1 = lt_of_mul-lt-mul_left scale (omega arith) in
    (omega arith, omega arith)

drop_hundred : (x r s : ℕ) → 2 * (x * (s * 100)) ≤ 2 * (r * 100) + s * 100 → 2 * (x * s) ≤ 2 * r + s
drop_hundred x r s h = omega arith

drop_hundred_above :
    (x r s : ℕ) → 2 * (r * 100) ≤ 2 * (x * (s * 100)) + s * 100 → 2 * r ≤ 2 * (x * s) + s
drop_hundred_above x r s h = omega arith

-- A quotient of at most `v`, rounded at a scale, is at most `v` at that scale.
quotient_below : (v n m q scale : ℕ) → 0 < q → Near m (n * scale) q → n ≤ v * q → m ≤ v * scale
quotient_below v n m q scale pos (lo, hi) h =
    let h' = mul-le-mul_left scale h in
    let a : 2 * m < 2 * (v * scale) + 2 = lt_of_mul-lt-mul_left q (omega arith) in omega arith

module _ (column : NumericColumn) (ps : ProductSize) (f : FitsColumns ps) (k : ℕ)
    (partly : k < ps.quantity) where
  abbrev kept : ℕ
  kept = column.store (sub (grosze ps.stock_value) (purchase_share ps k))

  -- The value that stays is the exact rest, rounded to a nearest grosz.
  kept-near :
      (2 * (kept * ps.quantity) + 2 * (ps.stock_value * k)
        ≤ 2 * (ps.stock_value * ps.quantity) + ps.quantity)
      × (2 * (ps.stock_value * ps.quantity)
          ≤ 2 * (kept * ps.quantity) + 2 * (ps.stock_value * k) + ps.quantity)
  kept-near =
      let v = ps.stock_value in
      let q = ps.quantity in
      let n : ℕ = v * k in
      let s = places_of n q in
      let m = half_even (n * 10 ^ s) q in
      let le : k ≤ q = omega (arith, partly) in
      let small = share_product_small ps f k le in
      let ge = places_of-ge n q small in
      let big : q < 10 ^ s =
        le_trans f.quantity_fits (pow-le-pow_right {n = 10} (omega arith) ge) in
      let close = half_even-Near (n * 10 ^ s) q f.in_stock in
      let share : n ≤ v * q = mul-le-mul_left v le in
      let fits = quotient_below v n m q (10 ^ s) f.in_stock close share in
      let rest : Decimal = record { coeff = v * 10 ^ s - m; places = 2 + s } in
      let kept_rest : kept ≡ column.store rest =
        ap (λ d. column.store (sub (grosze v) d)) (purchase_share-eq ps f k le)
        ∙ ap (λ d. column.store (sub (grosze v) d)) (div-eq n q)
        ∙ ap column.store (sub-grosze v m s) in
      let (below, above) = column.store_near rest in
      let two = ten_pow_plus_two s in
      let below' = rw two at below in
      let above' = rw two at above in
      rw kept_rest (
        kept_rest_bounds v n m q (10 ^ s) (v * 10 ^ s - m) (column.store rest) f.in_stock big close
          (omega (arith, fits)) (drop_hundred _ _ _ below') (drop_hundred_above _ _ _ above'))

-- Two roundings of the parts of `v`, the first halves up, add up to `v` or to one more.
parts_of :
    (v q n c x : ℕ)
    → 0 < q
    → (2 * (c * q) ≤ 2 * n + q) × (2 * n < 2 * (c * q) + q)
    → (2 * (x * q) + 2 * n ≤ 2 * (v * q) + q) × (2 * (v * q) ≤ 2 * (x * q) + 2 * n + q)
    → (v ≤ c + x) × (c + x ≤ v + 1)
parts_of v q n c x pos (lo, hi) (below, above) =
    let a : v < c + x + 1 = lt_of_mul-lt-mul_left q (omega arith) in
    let b : c + x < v + 2 = lt_of_mul-lt-mul_left q (omega arith) in (omega arith, omega arith)

half_up_self : (v q : ℕ) → 0 < q → half_up (v * q) q ≡ v
half_up_self v q pos = half_up_of_bounds v (v * q) q pos (omega arith) (omega arith)

pub store_zero : (column : NumericColumn) → column.store (grosze 0) ≡ 0
store_zero column = let (below, above) = column.store_near (grosze 0) in omega arith

take_out_some :
    (column : NumericColumn) (ps : ProductSize) (k : ℕ)
    → k < ps.quantity
    → (take_out column ps k).stock_value
      ≡ column.store (sub (grosze ps.stock_value) (purchase_share ps k))
unfolding take_out
take_out_some column ps k h = rw (lt→ltb 0 (ps.quantity - k) (omega arith))

pub take_out_all :
    (column : NumericColumn) (ps : ProductSize) (k : ℕ)
    → ps.quantity ≤ k
    → (take_out column ps k).stock_value ≡ 0
unfolding take_out
take_out_all column ps k h =
    let e : ltb 0 (ps.quantity - k) ≡ false = ground arith in rw e (store_zero column)

pub take_out-quantity :
    (column : NumericColumn) (ps : ProductSize) (k : ℕ)
    → (take_out column ps k).quantity ≡ ps.quantity - k
unfolding take_out
take_out-quantity column ps k = refl

cost_of_all :
    (ps : ProductSize) (k : ℕ)
    → FitsColumns ps
    → k ≡ ps.quantity
    → quantize (purchase_share ps k) ≡ ps.stock_value
cost_of_all ps k f e =
    quantize-purchase_share ps f k (omega arith)
    ∙ (ap (λ x. half_up (ps.stock_value * x) ps.quantity) e
        ∙ half_up_self ps.stock_value ps.quantity f.in_stock)

-- When `k` pieces, some but not more than are in stock, go out at the average, the grosze that the
-- sale is charged with and those that stay in stock add up to the value before, or to one grosz
-- more; when everything goes out, nothing stays and the sale is charged with the whole value.
pub take_out_conserves :
    (column : NumericColumn) (ps : ProductSize) (k : ℕ)
    → FitsColumns ps
    → k ≤ ps.quantity
    → let cost = quantize (purchase_share ps k) in
      let after = take_out column ps k in
      (after.quantity + k ≡ ps.quantity)
      × (ps.stock_value ≤ cost + after.stock_value)
      × (cost + after.stock_value ≤ ps.stock_value + 1)
      × (k ≡ ps.quantity → (cost ≡ ps.stock_value) × (after.stock_value ≡ 0))
take_out_conserves column ps k f le = elim (Bool-cases (ltb k ps.quantity)) [
  | inl some_left ↦
      let partly : k < ps.quantity = ltb→lt k ps.quantity some_left in
      let (a, b) =
        parts_of ps.stock_value ps.quantity (ps.stock_value * k) _ _ f.in_stock
          (half_up-bounds (ps.stock_value * k) ps.quantity f.in_stock)
          (kept-near column ps f k partly) in
      let cost = quantize-purchase_share ps f k le in
      let value = take_out_some column ps k partly in
      (
        omega (arith, take_out-quantity column ps k),
        rw (cost, value) a,
        rw (cost, value) b,
        λ e. absurd (omega arith),
      )
  | inr none_left ↦
      let all : k ≡ ps.quantity = ground arith in
      let cost = cost_of_all ps k f all in
      let value = take_out_all column ps k (omega arith) in
      (omega (arith, take_out-quantity column ps k), omega arith, omega arith, λ e. (cost, value))
]
