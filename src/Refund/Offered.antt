-- ===== src/Refund/Offered.antt =====
-- A refund that is offered is carried out, on the tables and the answers it was offered for
-- (magazyn/services/return_refunds.py).
use retrievershop_suite.Prelude.{
  ◌≡◌, refl, sym, ap, ◌∙◌, String, Option, none, some, List, Bool, true, false, not, ◌||◌,
  if◌then◌else◌, str_eq, get_or, find_first,
}
use retrievershop_suite.Returns.Rows.{Return, Db, return_status_cancelled}
use retrievershop_suite.Returns.Core.{is_of_order}
use retrievershop_suite.Refund.Rows.{RefundOrder, RefundOutside, is_woo_order, is_woo_return}
use retrievershop_suite.Refund.Process.{
  is_refundable, refund_order, is_order_row, refundable_return, process_refund, process_woo_refund,
  process_allegro_refund,
}
use retrievershop_suite.Refund.Eligible.{
  allegro_eligible, build_woo_refund_eligibility_details, eligible_order, eligible_return,
  check_refund_eligibility,
}
use retrievershop_suite.Refund.Reaches.{
  has_calls, process_woo_refund-calls, process_allegro_refund-calls,
}

second_false : (a b : Bool) → (a || b) ≡ false → b ≡ false
second_false true b e = cc
second_false false b e = e

false_of_negated : (b : Bool) → not b ≡ true → b ≡ false
false_of_negated true e = cc
false_of_negated false e = refl

passes :
    (p c m b : Bool)
    → (if p || c || not m then false else b) ≡ true
    → (p ≡ false) × (m ≡ true) × (b ≡ true)
passes true c m b e = cc
passes false true m b e = cc
passes false false false b e = cc
passes false false true b e = (refl, refl, e)

module _ (out : RefundOutside) (reason : Option String) (db : Db) where
  by_platform :
      (order : RefundOrder) (r : Return) (external_id : String)
      → order.external_order_id ≡ some external_id
      → (b : Bool)
      → (if b
          then build_woo_refund_eligibility_details order
          else allegro_eligible out order r (get_or order.external_order_id ""))
        ≡ true
      → (is_woo_order order.order_id || is_woo_return r) ≡ b
      → has_calls
          (if b
            then process_woo_refund out false reason order r external_id db
            else process_allegro_refund out false reason order r external_id db).1
        ≡ true
  by_platform order r external_id x true h w =
      process_woo_refund-calls out reason order r db external_id (false_of_negated _ h)
  by_platform order r external_id x false h w =
      process_allegro_refund-calls out reason order r db external_id
        (second_false (is_woo_order order.order_id) (is_woo_return r) w)
        (sym (ap (λ o. allegro_eligible out order r (get_or o "")) x) ∙ h)

  eligible_named :
      (order : RefundOrder) (r : Return) (external_id : String)
      → order.external_order_id ≡ some external_id
      → str_eq external_id "" ≡ false
      → eligible_order out r (some order) ≡ true
      → has_calls (refund_order out false reason order r db (some external_id)).1 ≡ true
  unfolding refund_order eligible_order
  eligible_named order r external_id x named e =
      rw named
        (by_platform order r external_id x (is_woo_order order.order_id || is_woo_return r) e refl)

  refund_order-calls :
      (order : RefundOrder) (r : Return) (external_id : String)
      → order.external_order_id ≡ some external_id
      → str_eq external_id "" ≡ false
      → eligible_order out r (some order) ≡ true
      → has_calls (refund_order out false reason order r db order.external_order_id).1 ≡ true
  refund_order-calls order r external_id x named e =
      ap (λ o. has_calls (refund_order out false reason order r db o).1) x
      ∙ eligible_named order r external_id x named e

  eligible-refundable :
      (order_id : String) (order : Option RefundOrder) (o : Option Return)
      → find_first (is_of_order order_id) db.returns ≡ o
      → eligible_return out order o ≡ true
      → (r : Return) × (refundable_return order_id db ≡ some r)
        × (eligible_order out r order ≡ true)
  unfolding eligible_return refundable_return
  eligible-refundable order_id order none found e = cc
  eligible-refundable order_id order (some r) found e =
      let x =
        passes r.refund_processed (str_eq r.status return_status_cancelled) (is_refundable r.status)
          (eligible_order out r order) e in
      (r, rw (found, refundable_return) (rw (x.0, x.1) refl), x.2)

  refundable-calls :
      (orders : List RefundOrder) (order_id : String) (order : RefundOrder) (r : Return)
      → refundable_return order_id db ≡ some r
      → find_first (is_order_row order_id) orders ≡ some order
      → has_calls (refund_order out false reason order r db order.external_order_id).1 ≡ true
      → has_calls (process_refund out false reason orders order_id db).1 ≡ true
  unfolding process_refund
  refundable-calls orders order_id order r e f h = rw (e, f, process_refund) h

  -- When check_refund_eligibility offers the refund of an order whose row has an id at its platform,
  -- process_refund without the cost of delivery, on the same tables and with the same answers of the
  -- services, calls the payment service.
  pub check_refund_eligibility-calls :
      (orders : List RefundOrder) (order_id : String) (order : RefundOrder) (external_id : String)
      → find_first (is_order_row order_id) orders ≡ some order
      → order.external_order_id ≡ some external_id
      → str_eq external_id "" ≡ false
      → check_refund_eligibility out orders order_id db ≡ true
      → has_calls (process_refund out false reason orders order_id db).1 ≡ true
  unfolding check_refund_eligibility
  check_refund_eligibility-calls orders order_id order external_id f x named e =
      let h =
        eligible-refundable order_id (some order) (find_first (is_of_order order_id) db.returns)
          refl
          (sym (ap (λ o. eligible_return out o (find_first (is_of_order order_id) db.returns)) f)
            ∙ e) in
      refundable-calls orders order_id order h.0 h.1 f
        (refund_order-calls order h.0 external_id x named h.2)
