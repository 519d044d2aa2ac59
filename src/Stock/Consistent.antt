-- ===== src/Stock/Consistent.antt =====
-- When the stock tables are consistent, and that deliveries and sales keep them so
-- (magazyn/services/stock_records.py).
use retrievershop_suite.Prelude.{
  ℕ, ◌+◌, ◌*◌, ◌≡◌, refl, min, Bool, arith, inl, inr, Bool-cases, String, List, [], ◌∷◌, ◌++◌, All,
  Option, some, none, find_first, update_first, All-update_first, All-find_first, ltb,
}
use retrievershop_suite.Decimal.{Decimal, grosze}
use retrievershop_suite.Stock.Rows.{ProductSize, Db, Sale, PurchaseBatch, is_at}
use retrievershop_suite.Stock.Records.{
  NumericColumn, SaleTerms, record_purchase, record_purchase_at, consume_row, sell_from,
  record_sale,
}
use retrievershop_suite.Stock.Adjusted.{IsValued, take_out-IsValued}
use retrievershop_suite.Stock.Selling.{sell_from-rows, sell_from-sales, record_sale-IsSale, IsSale}
use retrievershop_suite.Stock.Returned.{IsReturnable}

-- The comment on `ProductSize.stock_value`: a row without pieces has no value; and no sale counts
-- more pieces back than it sold.
pub record IsConsistent (db : Db) : Type 0 where
  pub valued : All IsValued db.product_sizes
  pub returnable : All IsReturnable db.sales

-- The row that replaces the first match keeps what holds of all rows.
pub replace-IsValued :
    (p : ProductSize → Bool) (row : ProductSize) (rows : List ProductSize)
    → IsValued row
    → All IsValued rows
    → All IsValued (update_first p (λ _. row) rows)
replace-IsValued p row rows v h = All-update_first IsValued p (λ _. row) rows (λ x _. v) h

All-append_one :
    (sales : List Sale) (s : Sale)
    → All IsReturnable sales
    → IsReturnable s
    → All IsReturnable (sales ++ s ∷ [])
All-append_one [] s h p = (p, tt)
All-append_one (x ∷ xs) s h p = (h.0, All-append_one xs s h.1 p)

record_purchase_at-IsConsistent :
    (db : Db) (batch : PurchaseBatch) (o : Option ProductSize)
    → ((ps : ProductSize) → o ≡ some ps → IsValued ps)
    → IsConsistent db
    → IsConsistent (record_purchase_at db batch o)
unfolding record_purchase_at
record_purchase_at-IsConsistent db batch none found c = c
record_purchase_at-IsConsistent db batch (some ps) found c = record {
  valued =
      All-update_first IsValued (is_at batch.product_id batch.size) _ db.product_sizes
        (λ x _ e. bought e) c.valued;
  returnable = c.returnable;
}
  where
    bought : ps.quantity + batch.quantity ≡ 0 → ps.stock_value + batch.quantity * batch.price ≡ 0
    bought e =
        let z : batch.quantity ≡ 0 = omega arith in
        rw z (omega (arith, found ps refl (omega arith)))

pub record_purchase-IsConsistent :
    (db : Db) (product_id : ℕ) (size : String) (quantity : ℕ) (price : Decimal)
    (batch : PurchaseBatch)
    → IsConsistent db
    → IsConsistent (record_purchase db product_id size quantity price batch)
unfolding record_purchase
record_purchase-IsConsistent db product_id size quantity price batch c =
    record_purchase_at-IsConsistent (record db { purchase_batches = _ })
      (record batch { product_id = _; size = _; quantity = _; price = _ })
      (find_first (is_at product_id size) db.product_sizes)
      (λ ps e. All-find_first IsValued (is_at product_id size) db.product_sizes ps c.valued e)
      (record { valued = c.valued; returnable = c.returnable })

-- A new sale has no pieces returned.
new_sale :
    (product_id : ℕ) (size : String) (quantity cost : ℕ) (terms : SaleTerms) (s : Sale)
    → IsSale product_id size quantity cost terms s
    → IsReturnable s
new_sale product_id size quantity cost terms s i = omega (arith, i.unreturned)

module _ (column : NumericColumn) (threshold : ℕ) (db : Db) (product_id : ℕ) (size : String)
    (quantity : ℕ) (terms : SaleTerms) (c : IsConsistent db) where
  unsold-IsConsistent : IsConsistent (record_sale db product_id size quantity (grosze 0) terms)
  unsold-IsConsistent =
      let (s, e, i) = record_sale-IsSale db product_id size quantity 0 terms in
      record {
        valued = unfold record_sale in c.valued;
        returnable = rw e (All-append_one db.sales s c.returnable (new_sale _ _ _ _ terms s i));
      }

  sold-IsConsistent :
      (ps : ProductSize) (k : ℕ)
      → IsConsistent (sell_from column threshold db product_id size quantity terms ps k)
  sold-IsConsistent ps k =
      let (s, e, i) = sell_from-sales column threshold db product_id size quantity terms ps k in
      record {
        valued =
            rw (sell_from-rows column threshold db product_id size quantity terms ps k)
              (replace-IsValued _ _ db.product_sizes (take_out-IsValued column ps k) c.valued);
        returnable = rw e (All-append_one db.sales s c.returnable (new_sale _ _ _ _ terms s i));
      }

  pub consume_row-IsConsistent :
      (o : Option ProductSize)
      → IsConsistent (consume_row column threshold db product_id size quantity terms o).0
  consume_row-IsConsistent none = unfold consume_row in unsold-IsConsistent
  consume_row-IsConsistent (some ps) = elim (Bool-cases (ltb 0 (min ps.quantity quantity))) [
    | inl t ↦ unfold consume_row in rw t (sold-IsConsistent ps (min ps.quantity quantity))
    | inr u ↦ unfold consume_row in rw u unsold-IsConsistent
  ]
