-- ===== src/ItemEdit/Moves.antt =====
-- What an edit of a line does to the stock (magazyn/services/order_item_edit.py).
use retrievershop_suite.Prelude.{
  ℕ, ◌==◌, ◌≡◌, refl, String, some, Bool, true, false, ◌&&◌, inl, inr, Bool-cases, get_or,
}
use retrievershop_suite.OrderStatus.Rows as OrderRows
use retrievershop_suite.Stock.Rows as StockRows
use retrievershop_suite.Stock.Records.{consume_stock}
use retrievershop_suite.Stock.Levels.{put_back}
use retrievershop_suite.ItemEdit.Variant.{
  EditDb, EditOutside, OrderItem, order_has_consumed_stock, item_quantity, consume_payload,
  edit_stock,
}

-- What an edit of a line does to the stock, with whether the old pieces came back and whether the
-- order had sold pieces. Without a sale of the order nothing moves; after one, the pieces of the line
-- are taken of the new variant at the price of the line, and before that, when asked for, as many
-- come back to the old variant as a return of the order.
pub data Moves (out : EditOutside) (order_id : String) (item : OrderItem)
    (old_ps new_ps : StockRows.ProductSize) (restore_previous : Bool) (stock : StockRows.Db)
    : StockRows.Db → Bool → Bool → Type 0 where
  unsold :
      order_has_consumed_stock order_id stock ≡ false
      → Moves out order_id item old_ps new_ps restore_previous stock stock false false
  exchanged :
      order_has_consumed_stock order_id stock ≡ true
      → restore_previous ≡ true
      → Moves out order_id item old_ps new_ps restore_previous stock
          (consume_stock out.column out.threshold
            (put_back stock
              (λ ps. ps.id == old_ps.id)
              (some order_id)
              old_ps
              (item_quantity item.quantity))
            new_ps.product_id
            new_ps.size
            (item_quantity item.quantity)
            (consume_payload out order_id (get_or item.price_brutto 0))).0
          true
          true
  taken :
      order_has_consumed_stock order_id stock ≡ true
      → restore_previous ≡ false
      → Moves out order_id item old_ps new_ps restore_previous stock
          (consume_stock out.column out.threshold stock new_ps.product_id new_ps.size
            (item_quantity item.quantity)
            (consume_payload out order_id (get_or item.price_brutto 0))).0
          false
          true

module _ (out : EditOutside) (dispatch_email : OrderRows.Db → String → String → OrderRows.Db)
    (clock : ℕ) (order_id : String) (restore_previous : Bool) (db : EditDb) where
  pub edit_stock-Moves :
      (item : OrderItem) (old_ps new_ps : StockRows.ProductSize)
      → Moves out order_id item old_ps new_ps restore_previous db.stock
          (edit_stock out dispatch_email clock order_id restore_previous db item old_ps new_ps)
          (restore_previous && order_has_consumed_stock order_id db.stock)
          (order_has_consumed_stock order_id db.stock)
  unfolding edit_stock
  edit_stock-Moves item old_ps new_ps =
      elim (Bool-cases (order_has_consumed_stock order_id db.stock)) [
        | inr u ↦ elim (Bool-cases restore_previous) [
          | inl r ↦ rw (u, r) (unsold u)
          | inr n ↦ rw (u, n) (unsold u)
        ]
        | inl t ↦ elim (Bool-cases restore_previous) [
          | inl r ↦ rw (t, r) (exchanged t refl)
          | inr n ↦ rw (t, n) (taken t refl)
        ]
      ]
