-- ===== src/ItemEdit/Effects.antt =====
-- What an edit of a line changes (magazyn/services/order_item_edit.py).
use retrievershop_suite.Prelude.{
  ℕ, ◌==◌, ==_iff, ◌≡◌, refl, ap, String, Option, none, some, List, ◌∷◌, Bool, true, false, not,
  ◌&&◌, ◌||◌, inl, inr, Bool-cases, str_eq, is_some, get_or, find_first, find_first_test,
  update_where,
}
use retrievershop_suite.OrderStatus.Rows as OrderRows
use retrievershop_suite.OrderStatus.Service.{add_order_status, is_skipped, has_id, last_status}
use retrievershop_suite.Stock.Records.{is_id}
use retrievershop_suite.Cancel.Order.{current_order_status}
use retrievershop_suite.ItemEdit.Moves.{Moves, edit_stock-Moves}
use retrievershop_suite.ItemEdit.Variant.{
  EditDb, EditOutside, EditResult, edited, not_found, refused, OrderItem, VariantRow,
  can_edit_order_items, find_variant, same_family, is_item_row, edit_details, change_item,
  edit_tables, edit_variants, edit_item, edit_order_item_variant,
}

abbrev pub is_edited : EditResult → Bool
is_edited (edited restored consumed) = true
is_edited not_found = false
is_edited refused = false

-- How an edit ends: nothing is changed; or the status of the order allowed it, the line is there,
-- both variants are found, differ and are of one family, and then the tables change as listed.
pub data Edits (out : EditOutside) (order_id : String) (item_id new_product_size_id : ℕ)
    (restore_previous : Bool) (db : EditDb) : EditDb × EditResult → Type 0 where
  refuses :
      (r : EditResult)
      → is_edited r ≡ false
      → Edits out order_id item_id new_product_size_id restore_previous db (db, r)
  changes :
      (db' : EditDb) (restored consumed : Bool) (item : OrderItem)
      (old_variant new_variant : VariantRow) (log : OrderRows.OrderStatusLog)
      → can_edit_order_items (current_order_status order_id db.orders.logs) ≡ true
      → find_first (is_item_row order_id item_id) db.items ≡ some item
      → find_variant db (get_or item.product_size_id 0) ≡ some old_variant
      → find_variant db new_product_size_id ≡ some new_variant
      → (new_variant.row.id == old_variant.row.id) ≡ false
      → same_family old_variant.product new_variant.product ≡ true
      → db'.items ≡ update_where (is_item_row order_id item_id) (change_item new_variant) db.items
      → Moves out order_id item old_variant.row new_variant.row restore_previous db.stock db'.stock
          restored consumed
      → db'.orders.outbox ≡ db.orders.outbox
      → db'.orders.logs ≡ log ∷ db.orders.logs
      → log.status ≡ current_order_status order_id db.orders.logs
      → log.order_id ≡ order_id
      → Edits out order_id item_id new_product_size_id restore_previous db
          (db', edited restored consumed)

true_of_negated : (b : Bool) → not b ≡ false → b ≡ true
true_of_negated true h = refl
true_of_negated false h = cc

never_skipped :
    (status : String) (o : Option OrderRows.OrderStatusLog) → is_skipped false true status o ≡ false
never_skipped status none = refl
never_skipped status (some last) = refl

-- The new row of the log, written without an e-mail.
add_order_status_logs :
    (dispatch_email : OrderRows.Db → String → String → OrderRows.Db) (clock : ℕ)
    (orders : OrderRows.Db) (order_id status : String) (k : OrderRows.StatusDetails)
    → let after =
        (add_order_status dispatch_email clock orders order_id status false true false k).0 in
      (log : OrderRows.OrderStatusLog) × (after.logs ≡ log ∷ orders.logs)
      × (log.status ≡ status)
      × (log.order_id ≡ order_id)
      × (after.outbox ≡ orders.outbox)
unfolding add_order_status
add_order_status_logs dispatch_email clock orders order_id status k = (
  record {
    order_id = order_id;
    status = status;
    tracking_number = k.tracking_number;
    courier_code = k.courier_code;
    notes = k.notes;
    timestamp = clock;
  },
  rw (never_skipped status (last_status order_id orders.logs)) refl,
  refl,
  refl,
  rw (never_skipped status (last_status order_id orders.logs)) refl,
)

both_left : (a b : Bool) → (a && b) ≡ true → a ≡ true
both_left true b h = refl
both_left false b h = cc

changed_line :
    (order_id : String) (item_id : ℕ) (item : OrderItem) (v : VariantRow) (items : List OrderItem)
    → find_first (is_item_row order_id item_id) items ≡ some item
    → update_where (is_item_row order_id item.id) (change_item v) items
      ≡ update_where (is_item_row order_id item_id) (change_item v) items
changed_line order_id item_id item v items e =
    let test : (item.id == item_id && str_eq item.order_id order_id) ≡ true =
      find_first_test (is_item_row order_id item_id) items item e in
    let same : item.id ≡ item_id = (==_iff item.id item_id).0 (both_left _ _ test) in
    ap (λ k. update_where (is_item_row order_id k) (change_item v) items) same

or_left : (a b : Bool) → (a || not b) ≡ false → a ≡ false
or_left true b h = cc
or_left false b h = refl

or_right : (a b : Bool) → (a || not b) ≡ false → b ≡ true
or_right true b h = cc
or_right false b h = true_of_negated b h

module _ (out : EditOutside) (dispatch_email : OrderRows.Db → String → String → OrderRows.Db)
    (clock : ℕ) (order_id : String) (restore_previous : Bool) (db : EditDb)
    (item_id new_product_size_id : ℕ) where
  edit_tables-Edits :
      (item : OrderItem) (old_variant new_variant : VariantRow)
      → can_edit_order_items (current_order_status order_id db.orders.logs) ≡ true
      → find_first (is_item_row order_id item_id) db.items ≡ some item
      → find_variant db (get_or item.product_size_id 0) ≡ some old_variant
      → find_variant db new_product_size_id ≡ some new_variant
      → (new_variant.row.id == old_variant.row.id
          || not (same_family old_variant.product new_variant.product))
        ≡ false
      → Edits out order_id item_id new_product_size_id restore_previous db (
          edit_tables out dispatch_email clock order_id restore_previous db item old_variant
            new_variant)
  unfolding edit_tables
  edit_tables-Edits item old_variant new_variant allowed line old_found new_found u =
      let l =
        add_order_status_logs dispatch_email clock db.orders order_id
          (current_order_status order_id db.orders.logs)
          (edit_details item old_variant new_variant) in
      changes _ _ _ item old_variant new_variant l.0 allowed line old_found new_found
        (or_left _ _ u) (or_right _ _ u)
        (changed_line order_id item_id item new_variant db.items line)
        (edit_stock-Moves out dispatch_email clock order_id restore_previous db item old_variant.row
          new_variant.row)
        l.4 l.1 l.2 l.3

  edit_variants-Edits :
      (item : OrderItem) (o n : Option VariantRow)
      → can_edit_order_items (current_order_status order_id db.orders.logs) ≡ true
      → find_first (is_item_row order_id item_id) db.items ≡ some item
      → find_variant db (get_or item.product_size_id 0) ≡ o
      → find_variant db new_product_size_id ≡ n
      → Edits out order_id item_id new_product_size_id restore_previous db
          (edit_variants out dispatch_email clock order_id restore_previous db item o n)
  unfolding edit_variants
  edit_variants-Edits item none n allowed line old_found new_found = refuses refused refl
  edit_variants-Edits item (some old_variant) none allowed line old_found new_found =
      refuses refused refl
  edit_variants-Edits item (some old_variant) (some new_variant) allowed line old_found new_found =
      elim (Bool-cases (
        new_variant.row.id == old_variant.row.id
        || not (same_family old_variant.product new_variant.product))) [
          | inl t ↦ rw t (refuses refused refl)
          | inr u ↦
              rw u
                (edit_tables-Edits item old_variant new_variant allowed line old_found new_found u)
        ]

  edit_item-Edits :
      (o : Option OrderItem)
      → can_edit_order_items (current_order_status order_id db.orders.logs) ≡ true
      → find_first (is_item_row order_id item_id) db.items ≡ o
      → Edits out order_id item_id new_product_size_id restore_previous db
          (edit_item out dispatch_email clock order_id restore_previous db new_product_size_id o)
  unfolding edit_item
  edit_item-Edits none allowed line = refuses not_found refl
  edit_item-Edits (some item) allowed line = elim (Bool-cases (not (is_id item.product_size_id))) [
    | inl t ↦ rw t (refuses refused refl)
    | inr u ↦ rw u (
        edit_variants-Edits item (find_variant db (get_or item.product_size_id 0))
          (find_variant db new_product_size_id) allowed line refl refl)
  ]

  -- edit_order_item_variant either changes nothing and does not answer that a line was edited, or:
  -- the status of the order allows it; the line of this id and order, its variant and the new variant
  -- are found; the two differ and are of one family; the rows of that line, and no other, get the new
  -- variant, its barcode if it has one, and its name; if the order has a sale, the quantity of the
  -- line (1 if it has none) is taken of the new variant by consume_stock at the price of the line,
  -- after as many were put back to the old variant if that was asked for, and the answer says which;
  -- if it has none, the stock stays; no e-mail is sent; and the log has one new row, of this order,
  -- with the status that it had.
  pub edit_order_item_variant-Edits :
      Edits out order_id item_id new_product_size_id restore_previous db (
        edit_order_item_variant out dispatch_email clock order_id restore_previous db item_id
          new_product_size_id)
  unfolding edit_order_item_variant
  edit_order_item_variant-Edits =
      elim (Bool-cases (not (is_some (find_first (has_id order_id) db.orders.orders)))) [
        | inl t ↦ rw t (refuses not_found refl)
        | inr u ↦
            elim (Bool-cases
              (not (can_edit_order_items (current_order_status order_id db.orders.logs)))) [
                | inl t ↦ rw (u, t) (refuses refused refl)
                | inr n ↦
                    rw (u, n)
                      (edit_item-Edits (find_first (is_item_row order_id item_id) db.items)
                        (true_of_negated _ n) refl)
              ]
      ]
