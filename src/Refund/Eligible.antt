-- ===== src/Refund/Eligible.antt =====
-- check_refund_eligibility of magazyn/services/return_refunds.py: whether a refund is offered. The
-- message and the data for the page are left out.
use retrievershop_suite.Prelude.{
  String, Option, none, some, List, Bool, true, false, not, ◌||◌, if◌then◌else◌, str_eq, is_truthy,
  get_or, find_first,
}
use retrievershop_suite.Returns.Rows.{Return, Db, return_status_cancelled}
use retrievershop_suite.Returns.Core.{is_of_order}
use retrievershop_suite.Refund.Rows.{
  RefundOrder, RefundOutside, Answer, failed, answered, is_woo_order, is_woo_return,
  is_manual_return,
}
use retrievershop_suite.Refund.Process.{
  is_refundable, is_stock_restored_refund_override, check_cod_settlement, resolve_return_items,
  is_order_row,
}

abbrev pub is_answered : Answer → Bool
is_answered (failed error) = false
is_answered (answered found) = true

abbrev pub answer_data : Answer → Option String
answer_data (failed error) = none
answer_data (answered found) = some found

unfoldable pub fetch_allegro_return_data : RefundOutside → Return → Option String
fetch_allegro_return_data out r =
    if not out.has_access_token || not (is_truthy r.allegro_return_id)
    then none
    else answer_data (out.get_customer_return (get_or r.allegro_return_id ""))

abbrev pub partial_details : RefundOutside → String → Option String → Bool
partial_details out checkout none = true
partial_details out checkout (some items) =
    is_answered (out.build_partial_refund_details items checkout false)

unfoldable pub refund_details_of : RefundOutside → Return → Option String → Answer → Bool
unfolding resolve_return_items
refund_details_of out r found (failed error) = false
refund_details_of out r found (answered checkout) =
    partial_details out checkout (resolve_return_items out r found)

-- `_build_refund_eligibility_details`, without the details.
unfoldable pub build_refund_eligibility_details :
    RefundOutside → Return → String → Option String → Bool
unfolding refund_details_of
build_refund_eligibility_details out r external_id found =
    refund_details_of out r found (out.get_checkout_form external_id)

-- `_build_woo_refund_eligibility_details`, without the details.
abbrev pub build_woo_refund_eligibility_details : RefundOrder → Bool
build_woo_refund_eligibility_details order = not (order.is_cod || order.is_woo_cod)

-- The data of the return, asked for once more where the first answer had none.
abbrev pub found_or_again : Option String → Answer → Option String
found_or_again none answer = answer_data answer
found_or_again (some found) answer = some found

unfoldable pub validated : RefundOutside → Return → String → Option String → Bool
unfolding build_refund_eligibility_details
validated out r external_id none = false
validated out r external_id (some found) =
    if not (out.validate_return_for_refund found)
    then false
    else build_refund_eligibility_details out r external_id (some found)

-- What follows the test of the platform.
unfoldable pub allegro_eligible : RefundOutside → RefundOrder → Return → String → Bool
unfolding validated fetch_allegro_return_data
allegro_eligible out order r external_id =
    if not out.has_access_token
    then false
    else if check_cod_settlement out order external_id
    then false
    else if is_manual_return r || is_stock_restored_refund_override r
    then build_refund_eligibility_details out r external_id none
    else if not (is_truthy r.allegro_return_id)
    then false
    else validated out r external_id (
        found_or_again (fetch_allegro_return_data out r)
          (out.get_customer_return (get_or r.allegro_return_id "")))

unfoldable pub eligible_order : RefundOutside → Return → Option RefundOrder → Bool
unfolding allegro_eligible
eligible_order out r none = false
eligible_order out r (some order) =
    if is_woo_order order.order_id || is_woo_return r
    then build_woo_refund_eligibility_details order
    else allegro_eligible out order r (get_or order.external_order_id "")

unfoldable pub eligible_return : RefundOutside → Option RefundOrder → Option Return → Bool
unfolding eligible_order
eligible_return out order none = false
eligible_return out order (some r) =
    if r.refund_processed || str_eq r.status return_status_cancelled || not (is_refundable r.status)
    then false
    else eligible_order out r order

unfoldable pub check_refund_eligibility : RefundOutside → List RefundOrder → String → Db → Bool
unfolding eligible_return
check_refund_eligibility out orders order_id db =
    eligible_return out (find_first (is_order_row order_id) orders)
      (find_first (is_of_order order_id) db.returns)
