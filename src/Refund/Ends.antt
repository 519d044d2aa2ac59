-- ===== src/Refund/Ends.antt =====
-- How a refund ends (magazyn/services/return_refunds.py).
use Prim.Native.String.{count}
use retrievershop_suite.Prelude.{
  ℕ, ◌+◌, ◌≡◌, refl, String, Option, none, some, List, [], ◌∷◌, Bool, true, false, not, ◌&&◌, ◌||◌,
  inl, inr, Bool-cases, Option-cases, if◌then◌else◌, str_eq, is_truthy, is_some, find_first, ltb,
  get_or,
}
use retrievershop_suite.Returns.Rows.{Return, Db}
use retrievershop_suite.Refund.Rows.{
  RefundOrder, RefundOutside, AllegroRefund, MoneyCall, allegro_refund, woo_refund, bank_transfer,
  generate_correction_invoice, is_woo_order, is_woo_return, is_manual_return, woo_refund_amount,
}
use retrievershop_suite.Refund.Process.{
  log_cod_pending_once, complete_refund, check_cod_settlement, build_refund_execution, fetch_return,
  process_woo_refund, finish_refund, refund_items, refund_fetched, process_allegro_refund,
  refund_order, is_order_row, refundable_return, process_refund, BankTransfer, or_default,
  transfer_money, process_bank_transfer_refund,
}

-- Whether money went out by a call.
abbrev pub is_payment : MoneyCall → Bool
is_payment (allegro_refund q success) = success
is_payment (woo_refund external_id amount success) = success
is_payment (bank_transfer order_id amount) = true
is_payment (generate_correction_invoice order_id cover) = false

unfoldable pub payments : List MoneyCall → ℕ
payments [] = 0
payments (c ∷ calls) = (if is_payment c then 1 else 0) + payments calls

-- A refund of the order: nothing is paid, and the returns stay, or their log tells that the money is
-- pending; or one payment is made, for a return that may be refunded, which is completed.
pub data Ends (order_id : String) (db : Db) : Db × List MoneyCall × Bool → Type 0 where
  unpaid : (calls : List MoneyCall) → payments calls ≡ 0 → Ends order_id db (db, calls, false)
  pending :
      (r : Return) (calls : List MoneyCall)
      → refundable_return order_id db ≡ some r
      → payments calls ≡ 0
      → Ends order_id db (log_cod_pending_once r db, calls, false)
  paid :
      (r : Return) (note : String) (calls : List MoneyCall)
      → refundable_return order_id db ≡ some r
      → payments calls ≡ 1
      → Ends order_id db (complete_refund r note db, calls, true)

module _ (order_id : String) (db : Db) (r : Return)
    (found : refundable_return order_id db ≡ some r) where
  module _ (out : RefundOutside) (cover : Bool) (reason : Option String) (order : RefundOrder) where
    process_woo_refund-Ends :
        (external_id : String)
        → Ends order_id db (process_woo_refund out cover reason order r external_id db)
    unfolding process_woo_refund payments
    process_woo_refund-Ends external_id = elim (Bool-cases (order.is_cod || order.is_woo_cod)) [
      | inl t ↦ rw t (unpaid [] refl)
      | inr u ↦
          elim (Bool-cases (
            out.create_order_refund external_id (woo_refund_amount out order r cover)
              (get_or (or_default reason "Zwrot produktow (Woo)") ""))) [
                | inl t ↦ rw (u, t) (paid r _ _ found refl)
                | inr v ↦ rw (u, v) (unpaid _ refl)
              ]
    ]

    finish_refund-Ends :
        (q : AllegroRefund) (result : Bool × String)
        → Ends order_id db (finish_refund out cover reason order r q db result)
    unfolding finish_refund payments
    finish_refund-Ends q (true, message) = paid r _ _ found refl
    finish_refund-Ends q (false, message) = elim (Bool-cases (out.is_cod_not_paid_error message)) [
      | inl t ↦ rw t (pending r _ found refl)
      | inr u ↦ rw u (unpaid _ refl)
    ]

    refund_items-Ends :
        (external_id : String) (line_items : Option (Option String))
        → Ends order_id db (refund_items out cover reason order r external_id db line_items)
    unfolding refund_items payments
    refund_items-Ends external_id none = unpaid [] refl
    refund_items-Ends external_id (some line_items) = finish_refund-Ends _ _

    refund_fetched-Ends :
        (external_id : String) (fetched : Option (Option String))
        → Ends order_id db (refund_fetched out cover reason order r external_id db fetched)
    unfolding refund_fetched payments
    refund_fetched-Ends external_id none = unpaid [] refl
    refund_fetched-Ends external_id (some allegro_return) = refund_items-Ends external_id _

    process_allegro_refund-Ends :
        (external_id : String)
        → Ends order_id db (process_allegro_refund out cover reason order r external_id db)
    unfolding process_allegro_refund payments check_cod_settlement build_refund_execution
        fetch_return
    process_allegro_refund-Ends external_id = elim (Bool-cases out.has_access_token) [
      | inr u ↦ rw u (unpaid [] refl)
      | inl t ↦ elim (Bool-cases (check_cod_settlement out order external_id)) [
        | inl p ↦ rw (t, p) (pending r [] found refl)
        | inr n ↦
            elim (Bool-cases (not (is_truthy r.allegro_return_id) && not (is_manual_return r))) [
              | inl m ↦ rw (t, n, m) (unpaid [] refl)
              | inr k ↦ rw (t, n, k) (refund_fetched-Ends external_id (fetch_return out r))
            ]
      ]
    ]

    refund_order-Ends :
        (external_id : Option String)
        → Ends order_id db (refund_order out cover reason order r db external_id)
    unfolding refund_order payments
    refund_order-Ends none = unpaid [] refl
    refund_order-Ends (some external_id) = elim (Bool-cases (str_eq external_id "")) [
      | inl t ↦ rw t (unpaid [] refl)
      | inr u ↦ elim (Bool-cases (is_woo_order order.order_id || is_woo_return r)) [
        | inl w ↦ rw (u, w) (process_woo_refund-Ends external_id)
        | inr a ↦ rw (u, a) (process_allegro_refund-Ends external_id)
      ]
    ]

  transfer_money-Ends :
      (cover : Bool) (orders : List RefundOrder) (amount : ℕ)
      → Ends order_id db (transfer_money cover orders order_id amount db (some r))
  unfolding transfer_money payments
  transfer_money-Ends cover orders amount =
      elim (Option-cases (find_first (is_order_row order_id) orders)) [
        | inl e ↦ rw (e, transfer_money) (unpaid [] refl)
        | inr (order, e) ↦ rw (e, transfer_money) (paid r _ _ found refl)
      ]

-- process_refund ends in one of three ways: nothing is paid and the tables stay; nothing is paid, the
-- return may be refunded and its log has the note of a pending settlement; one payment is made for a
-- return that may be refunded, and the return is completed and refunded with a row in its log.
pub process_refund-Ends :
    (out : RefundOutside) (cover : Bool) (reason : Option String) (orders : List RefundOrder)
    (order_id : String) (db : Db)
    → Ends order_id db (process_refund out cover reason orders order_id db)
unfolding process_refund payments
process_refund-Ends out cover reason orders order_id db =
    elim (Option-cases (refundable_return order_id db)) [
      | inl e ↦ rw (e, process_refund) (unpaid [] refl)
      | inr (r, e) ↦ elim (Option-cases (find_first (is_order_row order_id) orders)) [
        | inl n ↦ rw (e, n, process_refund) (unpaid [] refl)
        | inr (order, f) ↦
            rw (e, f, process_refund)
              (refund_order-Ends order_id db r e out cover reason order order.external_order_id)
      ]
    ]

-- process_bank_transfer_refund ends in one of the same three ways as process_refund: nothing paid and
-- the tables as they were, nothing paid and a note of a pending settlement, or one payment for a
-- return that may be refunded, which is completed and refunded.
pub process_bank_transfer_refund-Ends :
    (t : BankTransfer) (cover : Bool) (orders : List RefundOrder) (order_id : String) (db : Db)
    → Ends order_id db (process_bank_transfer_refund t cover orders order_id db)
unfolding process_bank_transfer_refund payments
process_bank_transfer_refund-Ends t cover orders order_id db =
    elim (Bool-cases (not (is_some t.iban) || ltb (count t.recipient) 2)) [
      | inl bad ↦ rw bad (unpaid [] refl)
      | inr ok ↦ elim (Option-cases t.amount) [
        | inl n ↦ rw (ok, n) (unpaid [] refl)
        | inr (amount, a) ↦ elim (Option-cases (refundable_return order_id db)) [
          | inl e ↦ rw (ok, a, e) (nothing amount)
          | inr (r, e) ↦ rw (ok, a, e) (transfer_money-Ends order_id db r e cover orders amount)
        ]
      ]
    ]
  where
    nothing : (amount : ℕ) → Ends order_id db (transfer_money cover orders order_id amount db none)
    nothing amount = unpaid [] refl
