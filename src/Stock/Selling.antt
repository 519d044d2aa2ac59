-- ===== src/Stock/Selling.antt =====
-- What `consume_stock` of magazyn/services/stock_records.py leaves in the tables.
use retrievershop_suite.Prelude.{
  ℕ, ◌*◌, ◌<◌, ◌≡◌, refl, ap, min, true, ltb, arith, lt→ltb, ◌∙◌, some, String, find_first, ◌++◌,
  ◌∷◌, [], find_first-update_first, update_first,
}
use retrievershop_suite.Decimal.{grosze, half_up, quantize}
use retrievershop_suite.Decimal.Rounding.{half_up_of_bounds}
use retrievershop_suite.Stock.Rows.{ProductSize, Db, Sale, is_at}
use retrievershop_suite.Stock.Records.{
  NumericColumn, SaleTerms, purchase_share, take_out, consume_stock, consume_row, sell_from,
  record_sale, send_low_stock_alert,
}
use retrievershop_suite.Stock.Value.{FitsColumns, quantize-purchase_share}

pub quantize-grosze : (c : ℕ) → quantize (grosze c) ≡ c
unfolding quantize
quantize-grosze c = half_up_of_bounds c (c * 100) 100 (omega arith) (omega arith) (omega arith)

send_low_stock_alert-tables :
    (db : Db) (product_id : ℕ) (size : String) (quantity threshold : ℕ)
    → let db' = send_low_stock_alert db product_id size quantity threshold in
      (db'.product_sizes ≡ db.product_sizes) × (db'.sales ≡ db.sales) × (db'.pushes ≡ db.pushes)
unfolding send_low_stock_alert
send_low_stock_alert-tables db product_id size quantity threshold = ground arith

-- A row of sales: what was asked for, under which order, at which purchase cost, none returned.
pub record IsSale (product_id : ℕ) (size : String) (quantity cost : ℕ) (terms : SaleTerms)
    (s : Sale) : Type 0 where
  pub of_product : s.product_id ≡ product_id
  pub of_size : s.size ≡ size
  pub of_quantity : s.quantity ≡ quantity
  pub of_order : s.order_id ≡ terms.order_id
  pub at_cost : s.purchase_cost ≡ cost
  pub unreturned : s.quantity_returned ≡ 0

take_out-key :
    (column : NumericColumn) (ps : ProductSize) (k : ℕ)
    → ((take_out column ps k).product_id ≡ ps.product_id) × ((take_out column ps k).size ≡ ps.size)
unfolding take_out
take_out-key column ps k = (refl, refl)

pub record_sale-IsSale :
    (db : Db) (product_id : ℕ) (size : String) (quantity c : ℕ) (terms : SaleTerms)
    → (s : Sale) × ((record_sale db product_id size quantity (grosze c) terms).sales
        ≡ db.sales ++ s ∷ [])
      × IsSale product_id size quantity c terms s
unfolding record_sale
record_sale-IsSale db product_id size quantity c terms = (
  _,
  refl,
  record {
    of_product = refl;
    of_size = refl;
    of_quantity = refl;
    of_order = refl;
    at_cost = quantize-grosze c;
    unreturned = refl;
  },
)

module _ (column : NumericColumn) (threshold : ℕ) (db : Db) (product_id : ℕ) (size : String)
    (quantity : ℕ) (terms : SaleTerms) where
  abbrev pub result : Db × ℕ
  result = consume_stock column threshold db product_id size quantity terms

  pub sell_from-rows :
      (ps : ProductSize) (k : ℕ)
      → (sell_from column threshold db product_id size quantity terms ps k).product_sizes
        ≡ update_first (is_at product_id size) (λ _. take_out column ps k) db.product_sizes
  unfolding sell_from record_sale
  sell_from-rows ps k =
      (send_low_stock_alert-tables
        (record db {
          product_sizes =
              update_first (is_at product_id size) (λ _. take_out column ps k) db.product_sizes;
        })
        product_id size (take_out column ps k).quantity threshold).0

  pub sell_from-sales :
      (ps : ProductSize) (k : ℕ)
      → (s : Sale) × ((sell_from column threshold db product_id size quantity terms ps k).sales
          ≡ db.sales ++ s ∷ [])
        × IsSale product_id size quantity (quantize (purchase_share ps k)) terms s
  unfolding sell_from
  sell_from-sales ps k =
      let row = take_out column ps k in
      let taken = record db {
        product_sizes = update_first (is_at product_id size) (λ _. row) db.product_sizes;
      } in
      let alerted = send_low_stock_alert taken product_id size row.quantity threshold in
      let (_, same, _) = send_low_stock_alert-tables taken product_id size row.quantity threshold in
      let (s, e, is) =
        record_sale-IsSale alerted product_id size quantity (quantize (purchase_share ps k))
          terms in
      (s, e ∙ ap (λ l. l ++ s ∷ []) same, is)

  -- A sale of pieces that are in stock takes out as many as were asked for, or all there are: the
  -- row found for the product and size is the one before with those pieces and their share of the
  -- value taken out, and one sale is added, of the quantity asked for, at the exact share of the
  -- value rounded once to grosze, halves up. The number taken is returned.
  pub consume_stock_takes :
      (ps : ProductSize)
      → find_first (is_at product_id size) db.product_sizes ≡ some ps
      → FitsColumns ps
      → 0 < quantity
      → let k = min ps.quantity quantity in
        (result.1 ≡ k)
        × (find_first (is_at product_id size) result.0.product_sizes ≡ some (take_out column ps k))
        × ((s : Sale) × (result.0.sales ≡ db.sales ++ s ∷ [])
            × IsSale product_id size quantity (half_up (ps.stock_value * k) ps.quantity) terms s)
  consume_stock_takes ps found f asked =
      let k = min ps.quantity quantity in
      let positive : ltb 0 k ≡ true = lt→ltb 0 k (omega (arith, f.in_stock)) in
      let taken : result ≡ (sell_from column threshold db product_id size quantity terms ps k, k) =
        unfold consume_stock consume_row in rw (found, positive) in
      let keep : is_at product_id size (take_out column ps k) ≡ is_at product_id size ps =
        unfold take_out in refl in
      let rows =
        find_first-update_first (is_at product_id size) (λ _. take_out column ps k) db.product_sizes
          ps keep found in
      let cost = quantize-purchase_share ps f k (omega arith) in
      rw taken (refl, rw (sell_from-rows ps k) rows, rw cost at (sell_from-sales ps k))
