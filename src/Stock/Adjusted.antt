-- ===== src/Stock/Adjusted.antt =====
-- What a correction of magazyn/services/stock_adjust.py comes to.
use retrievershop_suite.Prelude.{
  ℕ, zero, suc, ◌+◌, ◌-◌, ◌*◌, ◌<◌, ◌≡◌, refl, sym, ap, min, arith, inl, inr, Bool-cases, Option,
  some, none, ◌==◌, ◌∙◌, ◌^◌,
}
use retrievershop_suite.Prelude.Int.{ℤ, pos, negsuc, pos_part, ◌+ℤ◌, ◌-ℤ◌}
use retrievershop_suite.Decimal.{Decimal, grosze, quantize, mul}
use retrievershop_suite.Decimal.Rounding.{mul_exact}
use retrievershop_suite.Stock.Rows.{ProductSize}
use retrievershop_suite.Stock.Records.{NumericColumn, take_out}
use retrievershop_suite.Stock.Value.{take_out-quantity, take_out_all, store_zero}
use retrievershop_suite.Stock.Selling.{quantize-grosze}
use retrievershop_suite.Stock.Adjust.{Adjustment, change_stock, increase, decrease}

decrease-quantity :
    (column : NumericColumn) (ps : ProductSize) (n : ℕ)
    → (decrease column ps n).quantity ≡ ps.quantity - n
unfolding decrease
decrease-quantity column ps n = elim (Bool-cases (ps.quantity == 0)) [
  | inl empty ↦ rw empty (ground arith)
  | inr stocked ↦ rw stocked (omega (arith, take_out-quantity column ps (min n ps.quantity)))
]

plus_pos : (q n : ℕ) → pos_part (pos q +ℤ pos n) ≡ q + n
unfolding ◌+ℤ◌
plus_pos q n = ground arith

plus_negsuc : (q n : ℕ) → pos_part (pos q +ℤ negsuc n) ≡ q - suc n
unfolding ◌+ℤ◌
plus_negsuc q n = ground arith

-- The quantity after a change: the sum, or nothing where that would fall below nothing.
record IsChanged (ps : ProductSize) (change : ℤ) (a : Adjustment) : Type 0 where
  level : a.row.quantity ≡ pos_part (pos ps.quantity +ℤ change)
  reported : a.new_qty ≡ a.row.quantity
  remembered : a.old_qty ≡ ps.quantity

change_stock-IsChanged :
    (column : NumericColumn) (ps : ProductSize) (change : ℤ) (price : Option Decimal)
    → IsChanged ps change (change_stock column ps change price)
unfolding change_stock
change_stock-IsChanged column ps (pos zero) price = record {
  level = omega (arith, plus_pos ps.quantity 0);
  reported = refl;
  remembered = refl;
}
change_stock-IsChanged column ps (pos (suc n)) price = record {
  level = sym (plus_pos ps.quantity (suc n));
  reported = refl;
  remembered = refl;
}
change_stock-IsChanged column ps (negsuc n) price = record {
  level = decrease-quantity column ps (suc n) ∙ sym (plus_negsuc ps.quantity n);
  reported = refl;
  remembered = refl;
}

-- A row with nothing in stock has no value.
abbrev pub IsValued : ProductSize → Type 0
IsValued ps = ps.quantity ≡ 0 → ps.stock_value ≡ 0

pub take_out-IsValued :
    (column : NumericColumn) (ps : ProductSize) (k : ℕ) → IsValued (take_out column ps k)
take_out-IsValued column ps k e =
    take_out_all column ps k (omega (arith, take_out-quantity column ps k))

decrease-IsValued :
    (column : NumericColumn) (ps : ProductSize) (n : ℕ) → IsValued (decrease column ps n)
unfolding decrease
decrease-IsValued column ps n = elim (Bool-cases (ps.quantity == 0)) [
  | inl empty ↦ rw empty (λ e. store_zero column)
  | inr stocked ↦ rw stocked (take_out-IsValued column ps (min n ps.quantity))
]

pub change_stock-IsValued :
    (column : NumericColumn) (ps : ProductSize) (change : ℤ) (price : Option Decimal)
    → IsValued ps
    → IsValued (change_stock column ps change price).row
unfolding change_stock
change_stock-IsValued column ps (pos zero) price v = v
change_stock-IsValued column ps (pos (suc n)) price v = λ e. absurd (omega arith)
change_stock-IsValued column ps (negsuc n) price v = decrease-IsValued column ps (suc n)

minus_plus : (q : ℕ) (s : ℤ) → pos_part (pos q +ℤ (s -ℤ pos q)) ≡ pos_part s
unfolding ◌+ℤ◌ ◌-ℤ◌
minus_plus q (pos s) = ground arith
minus_plus q (negsuc s) = ground arith

-- A correction to a level gives that level, in the row with the same id.
pub change_stock_to :
    (column : NumericColumn) (ps : ProductSize) (n : ℕ) (price : Option Decimal)
    → (change_stock column ps (pos n -ℤ pos ps.quantity) price).row.quantity ≡ n
change_stock_to column ps n price =
    (change_stock-IsChanged column ps (pos n -ℤ pos ps.quantity) price).level
    ∙ minus_plus ps.quantity (pos n)

pub change_stock-id :
    (column : NumericColumn) (ps : ProductSize) (change : ℤ) (price : Option Decimal)
    → (change_stock column ps change price).row.id ≡ ps.id
unfolding change_stock
change_stock-id column ps (pos zero) price = refl
change_stock-id column ps (pos (suc n)) price = refl
change_stock-id column ps (negsuc n) price = elim (Bool-cases (ps.quantity == 0)) [
  | inl empty ↦ rw empty refl
  | inr stocked ↦ rw stocked refl
]

-- What a call asks for: the level it sets, or the change it makes.
pub data Asks (ps : ProductSize) : Option ℤ → Option ℤ → ℕ → Type 0 where
  to_level : (s : ℤ) → Asks ps (some s) none (pos_part s)
  by_change : (d : ℤ) → Asks ps none (some d) (pos_part (pos ps.quantity +ℤ d))

-- An increase at a given price adds its number of pieces at that price, rounded to grosze once.
pub increase_priced :
    (ps : ProductSize) (n : ℕ) (price : Decimal)
    → quantize price * n < 10 ^ 28
    → (increase ps n (some price)).stock_value ≡ ps.stock_value + n * quantize price
unfolding increase
increase_priced ps n price small =
    let e = mul_exact (quantize price) 2 n small in
    let e' : quantize (mul (grosze (quantize price)) n) ≡ quantize price * n =
      ap quantize e ∙ quantize-grosze (quantize price * n) in
    omega (arith, e')
