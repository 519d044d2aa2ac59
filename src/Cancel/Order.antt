-- ===== src/Cancel/Order.antt =====
-- The functions of magazyn/services/order_cancel.py. The reason is the argument without the blanks
-- around it. The outside (the refund, the state of the order at Allegro, the correction of the
-- invoice) is a record of functions, and every call of it is listed, oldest first.
use Prim.Native.String.{◌++◌ as text_append}
use retrievershop_suite.Prelude.{
  ℕ, zero, String, Option, none, some, List, [], ◌∷◌, ◌++◌, Bool, true, not, ◌&&◌, if◌then◌else◌,
  str_eq, mem_text, is_truthy, is_some, get_or, find_first, ◌==◌,
}
use retrievershop_suite.Prelude.Int.{ℤ, pos, pos_part}
use retrievershop_suite.OrderStatus.Rows.{OrderStatusLog, StatusDetails}
use retrievershop_suite.OrderStatus.Service.{
  Mailer, add_order_status, dispatch_status_email, has_id, last_status,
}
use retrievershop_suite.Stock.Rows.{ProductSize, Sale}
use retrievershop_suite.Stock.Restore.{is_order}
use retrievershop_suite.Returns.Rows.{Db}
use retrievershop_suite.Returns.Restock.{find_size, find_barcode, first_of, restock}

abbrev pub cancel_allowed_statuses : List String
cancel_allowed_statuses =
    "pobrano" ∷ "nieoplacone" ∷ "wydrukowano" ∷ "spakowano" ∷ "blad_druku" ∷ []

unfoldable pub can_cancel_order : String → Bool
can_cancel_order current_status = mem_text current_status cancel_allowed_statuses

-- The columns of the order that decide the calls to the outside.
pub record OrderColumns : Type 0 where
  pub external_order_id : Option String
  pub platform : Option String
  pub is_cod : Bool
  pub wfirma_invoice_id : Option String
  pub wfirma_correction_id : Option String

-- A row of `order.products`.
pub record OrderLine : Type 0 where
  pub name : Option String
  pub ean : Option String
  pub quantity : Option ℤ
  pub product_size_id : Option ℕ

pub data Correction : Type 0 where
  issued : Option String → Correction
  not_issued : List String → Correction

pub data OutsideCall : Type 0 where
  refund : String → String → OutsideCall
  fulfillment_cancelled : String → OutsideCall
  correction_asked : String → String → OutsideCall

-- An exception of the last two is an error they tell of.
pub record Outside : Type 0 where
  pub has_token : Bool
  pub initiate_refund : String → String → Bool × String
  pub update_fulfillment_status : String → Option String
  pub generate_correction_invoice : String → String → Correction

-- Why no money went back, or the message with which it did.
pub data CancelRefund : Type 0 where
  refunded refused : String → CancelRefund
  no_external_order_id cash_on_delivery no_token : CancelRefund

pub record CancelDetails : Type 0 where
  pub restored : List (Option String × ℤ)
  pub correction_number : Option String
  pub correction_errors : List String
  pub allegro_error : Option String

pub data OrderCancelResult : Type 0 where
  not_found already_cancelled : OrderCancelResult
  not_allowed : String → OrderCancelResult
  not_refunded : CancelRefund → OrderCancelResult
  cancelled : CancelDetails → OrderCancelResult

unfoldable pub current_order_status : String → List OrderStatusLog → String
current_order_status order_id logs = elim (last_status order_id logs) [
  | none ↦ "pobrano"
  | some last ↦ last.status
]

-- `int(op.quantity or 1)`
abbrev pub line_quantity : Option ℤ → ℤ
line_quantity none = pos 1
line_quantity (some (pos zero)) = pos 1
line_quantity (some n) = n

unfoldable pub find_line_size : Db → OrderLine → Option ProductSize
unfolding find_size find_barcode first_of
find_line_size db line =
    first_of (find_size line.product_size_id db.stock.product_sizes)
      (find_barcode line.ean db.stock.product_sizes)

unfoldable pub restore_lines : String → List OrderLine → Db → Db × List (Option String × ℤ)
unfolding find_line_size restock
restore_lines order_id [] db = (db, [])
restore_lines order_id (line ∷ lines) db =
    let quantity = line_quantity line.quantity in
    elim (find_line_size db line) [
      | none ↦ restore_lines order_id lines db
      | some ps ↦
          let skipped = restore_lines order_id lines db in
          let rest = restore_lines order_id lines (restock order_id ps quantity db) in
          if pos_part quantity == 0
          then skipped
          else (rest.0, (if is_truthy line.name then line.name else ps.barcode, quantity) ∷ rest.1)
    ]

abbrev pub is_sold_for : String → Sale → Bool
is_sold_for order_id sale = is_order order_id sale.order_id

unfoldable pub restore_stock_for_order :
    String → List OrderLine → Db → Db × List (Option String × ℤ)
unfolding restore_lines
restore_stock_for_order order_id lines db =
    if is_some (find_first (is_sold_for order_id) db.stock.sales)
    then restore_lines order_id lines db
    else (db, [])

unfoldable pub refund_at : Outside → Bool → String → Option String → List OutsideCall × CancelRefund
refund_at out is_cod reason none = ([], no_external_order_id)
refund_at out is_cod reason (some external_id) =
    let (success, message) = out.initiate_refund external_id reason in
    if str_eq external_id ""
    then ([], no_external_order_id)
    else if is_cod
    then ([], cash_on_delivery)
    else if not out.has_token
    then ([], no_token)
    else (refund external_id reason ∷ [], if success then refunded message else refused message)

unfoldable pub process_cancel_refund :
    Outside → OrderColumns → String → List OutsideCall × CancelRefund
unfolding refund_at
process_cancel_refund out columns reason =
    refund_at out columns.is_cod reason columns.external_order_id

-- `platform == "allegro" and external_order_id`
unfoldable pub allegro_cancel : Outside → OrderColumns → List OutsideCall × Option String
allegro_cancel out columns =
    let external_id = get_or columns.external_order_id "" in
    if str_eq (get_or columns.platform "") "allegro" && is_truthy columns.external_order_id
    then (fulfillment_cancelled external_id ∷ [], out.update_fulfillment_status external_id)
    else ([], none)

-- `has_invoice and not has_correction`
unfoldable pub correct_invoice :
    Outside → OrderColumns → String → String → List OutsideCall × Correction
correct_invoice out columns order_id reason =
    if is_truthy columns.wfirma_invoice_id && not (is_truthy columns.wfirma_correction_id)
    then (correction_asked order_id reason ∷ [], out.generate_correction_invoice order_id reason)
    else ([], not_issued [])

abbrev pub number_of : Correction → Option String
number_of (issued number) = number
number_of (not_issued errors) = none

abbrev pub errors_of : Correction → List String
errors_of (issued number) = []
errors_of (not_issued errors) = errors

unfoldable pub cancel_notes : String → Option String → String
cancel_notes reason none = text_append reason " (pieniadze juz zwrocone)"
cancel_notes reason (some message) =
    if str_eq message "" then reason else text_append reason (text_append "; zwrot: " message)

abbrev pub cancel_details : String → StatusDetails
cancel_details notes = record { tracking_number = none; courier_code = none; notes = some notes }

module _ (mailer : Mailer) (now : ℕ) (out : Outside) (columns : OrderColumns)
    (lines : List OrderLine) where
  -- The tables: the pieces go back, and the order is cancelled. `message` is that of the refund,
  -- none where the money was given back before.
  unfoldable pub cancel_tables :
      String → String → Option String → Db → Db × List (Option String × ℤ)
  unfolding restore_stock_for_order cancel_notes
  cancel_tables order_id reason message db =
      let restored = restore_stock_for_order order_id lines db in
      let db' = restored.0 in
      (
        record db' {
          orders =
              (add_order_status (dispatch_status_email mailer) now db'.orders order_id "anulowano"
                true true true (cancel_details (cancel_notes reason message))).0;
        },
        restored.1,
      )

  -- What follows the refund, if one was made.
  unfoldable pub cancel_refunded :
      String
      → String
      → List OutsideCall
      → Option String
      → Db
      → Db × List OutsideCall × OrderCancelResult
  unfolding cancel_tables allegro_cancel correct_invoice
  cancel_refunded order_id reason calls message db =
      let tables = cancel_tables order_id reason message db in
      let allegro = allegro_cancel out columns in
      let correction = correct_invoice out columns order_id reason in
      (
        tables.0,
        calls ++ (allegro.0 ++ correction.0),
        cancelled (record {
          restored = tables.1;
          correction_number = number_of correction.1;
          correction_errors = errors_of correction.1;
          allegro_error = allegro.1;
        }),
      )

  unfoldable pub cancel_if_refunded :
      String
      → String
      → Db
      → List OutsideCall × CancelRefund
      → Db × List OutsideCall × OrderCancelResult
  unfolding cancel_refunded
  cancel_if_refunded order_id reason db (calls, refunded message) =
      cancel_refunded order_id reason calls (some message) db
  cancel_if_refunded order_id reason db (calls, refused message) =
      (db, calls, not_refunded (refused message))
  cancel_if_refunded order_id reason db (calls, no_external_order_id) =
      (db, calls, not_refunded no_external_order_id)
  cancel_if_refunded order_id reason db (calls, cash_on_delivery) =
      (db, calls, not_refunded cash_on_delivery)
  cancel_if_refunded order_id reason db (calls, no_token) = (db, calls, not_refunded no_token)

  unfoldable pub cancel_at :
      String → Bool → String → Db → String → Db × List OutsideCall × OrderCancelResult
  unfolding cancel_if_refunded cancel_refunded process_cancel_refund can_cancel_order
  cancel_at order_id money_already_refunded reason db current =
      if str_eq current "anulowano"
      then (db, [], already_cancelled)
      else if not (can_cancel_order current)
      then (db, [], not_allowed current)
      else if money_already_refunded
      then cancel_refunded order_id reason [] none db
      else cancel_if_refunded order_id reason db (process_cancel_refund out columns reason)

  unfoldable pub cancel_order :
      String → Bool → String → Db → Db × List OutsideCall × OrderCancelResult
  unfolding cancel_at current_order_status
  cancel_order order_id money_already_refunded reason db =
      let reason' = if str_eq reason "" then "Anulowanie zamowienia" else reason in
      if is_some (find_first (has_id order_id) db.orders.orders)
      then cancel_at order_id money_already_refunded reason' db
          (current_order_status order_id db.orders.logs)
      else (db, [], not_found)
