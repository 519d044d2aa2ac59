-- ===== src/Refund/Paid.antt =====
-- That money goes back once (magazyn/services/return_refunds.py).
use retrievershop_suite.Prelude.{
  ℕ, ◌+◌, ◌≤◌, ◌≡◌, refl, sym, subst, ◌∙◌, ◌⊎◌, String, Option, none, some, List, Bool, true, false,
  inl, inr, Bool-cases, find_first, find_first-update_other, if◌then◌else◌, str_eq, equal_texts,
  arith, is_some, ◌==◌,
}
use retrievershop_suite.Returns.Rows.{Return, Db, has_return_id}
use retrievershop_suite.Returns.Core.{add_return_status_log, is_of_order}
use retrievershop_suite.Returns.Runs.{ReturnStep}
use retrievershop_suite.Refund.Rows.{RefundOrder, RefundOutside, MoneyCall}
use retrievershop_suite.Refund.Process.{
  is_pending_note, log_cod_pending_once, complete, complete_refund, is_refundable,
  refundable_return, process_refund, BankTransfer, process_bank_transfer_refund,
}
use retrievershop_suite.Refund.Ends.{
  payments, Ends, unpaid, pending, paid, process_refund-Ends, process_bank_transfer_refund-Ends,
}
use retrievershop_suite.Refund.Flags.{IsRefunded, update-IsRefunded, step-IsRefunded}

-- The return that may be refunded is the first of the order, and is not refunded.
record IsOpen (order_id : String) (rows : List Return) (r : Return) : Type 0 where
  found : find_first (is_of_order order_id) rows ≡ some r
  fresh : r.refund_processed ≡ false

picked :
    (a b : Bool) (x r : Return)
    → (if a then none else if b then some x else none) ≡ some r
    → (x ≡ r) × (a ≡ false)
picked true b x r e = cc
picked false true x r e = (cc, refl)
picked false false x r e = cc

IsOpen-at :
    (order_id : String) (db : Db) (r : Return) (o : Option Return)
    → find_first (is_of_order order_id) db.returns ≡ o
    → refundable_return order_id db ≡ some r
    → IsOpen order_id db.returns r
unfolding refundable_return
IsOpen-at order_id db r none n e = let q : none ≡ some r = rw (n, refundable_return) at e in cc
IsOpen-at order_id db r (some x) n e =
    let (same, fresh) =
      picked x.refund_processed (is_refundable x.status) x r (rw (n, refundable_return) at e) in
    record {
      found = subst (λ y. find_first (is_of_order order_id) db.returns ≡ some y) same n;
      fresh = subst (λ (y : Return). y.refund_processed ≡ false) same fresh;
    }

refundable_return-IsOpen :
    (order_id : String) (db : Db) (r : Return)
    → refundable_return order_id db ≡ some r
    → IsOpen order_id db.returns r
refundable_return-IsOpen order_id db r e =
    IsOpen-at order_id db r (find_first (is_of_order order_id) db.returns) refl e

IsRefunded-not_refundable :
    (order_id : String) (db : Db)
    → IsRefunded order_id db.returns
    → refundable_return order_id db ≡ none
unfolding refundable_return
IsRefunded-not_refundable order_id db h = rw (h.found, refundable_return) (rw h.mark refl)

logged-returns : (r : Return) (db : Db) → (log_cod_pending_once r db).returns ≡ db.returns
unfolding log_cod_pending_once add_return_status_log
logged-returns r db = elim (Bool-cases (is_some (find_first (is_pending_note r) db.return_logs))) [
  | inl t ↦ rw t refl
  | inr u ↦ rw u refl
]

self_eq : (n : ℕ) → (n == n) ≡ true
self_eq n = ground arith

-- Completing a refund leaves the refunded mark on the return of its order.
completed-IsRefunded :
    (order_id : String) (r : Return) (note : String) (db : Db)
    → refundable_return order_id db ≡ some r
    → IsRefunded order_id (complete_refund r note db).returns
unfolding complete_refund add_return_status_log
completed-IsRefunded order_id r note db e =
    let open_return = refundable_return-IsOpen order_id db r e in
    record {
      refunded = if has_return_id r.id r then complete r else r;
      found =
          find_first-update_other (is_of_order order_id) (has_return_id r.id) complete db.returns r
            (λ x. refl) open_return.found;
      mark = rw (self_eq r.id) refl;
    }

-- A refund of any order leaves the mark of an order that is refunded.
Ends-IsRefunded :
    (order_id other : String) (db : Db) (x : Db × List MoneyCall × Bool)
    → Ends other db x
    → IsRefunded order_id db.returns
    → IsRefunded order_id x.0.returns
unfolding complete_refund add_return_status_log
Ends-IsRefunded order_id other db _ (unpaid calls n) h = h
Ends-IsRefunded order_id other db _ (pending r calls e n) h = rw (logged-returns r db) h
Ends-IsRefunded order_id other db _ (paid r note calls e n) h =
    update-IsRefunded (has_return_id r.id) complete order_id db.returns (λ x. refl) (λ x m. refl) h

-- A run of operations on returns and of calls of process_refund and process_bank_transfer_refund, and
-- how often those two paid for one order.
pub data MoneyRun (order_id : String) (db : Db) : Db → ℕ → Type 0 where
  start : MoneyRun order_id db db 0
  returns :
      {db' db'' : Db} {n : ℕ}
      → MoneyRun order_id db db' n
      → ReturnStep db' db''
      → MoneyRun order_id db db'' n
  refunds :
      {db' : Db} {n : ℕ} (out : RefundOutside) (cover : Bool) (reason : Option String)
      (orders : List RefundOrder) (other : String)
      → MoneyRun order_id db db' n
      → MoneyRun order_id db (process_refund out cover reason orders other db').0 (
          n
          + (if str_eq other order_id
              then payments (process_refund out cover reason orders other db').1
              else 0))
  transfers :
      {db' : Db} {n : ℕ} (t : BankTransfer) (cover : Bool) (orders : List RefundOrder)
      (other : String)
      → MoneyRun order_id db db' n
      → MoneyRun order_id db (process_bank_transfer_refund t cover orders other db').0 (
          n
          + (if str_eq other order_id
              then payments (process_bank_transfer_refund t cover orders other db').1
              else 0))

-- Nothing was paid for the order, or it was paid once and is refunded.
abbrev PaidOnce : String → Db → ℕ → Type 0
PaidOnce order_id db n = (n ≡ 0) ⊎ ((n ≡ 1) × IsRefunded order_id db.returns)

IsRefunded-unpaid :
    (order_id : String) (db : Db) (x : Db × List MoneyCall × Bool)
    → IsRefunded order_id db.returns
    → Ends order_id db x
    → payments x.1 ≡ 0
IsRefunded-unpaid order_id db _ h (unpaid calls n) = n
IsRefunded-unpaid order_id db _ h (pending r calls e n) = n
IsRefunded-unpaid order_id db _ h (paid r note calls e n) =
    let q : none ≡ some r = sym (IsRefunded-not_refundable order_id db h) ∙ e in cc

first_paid :
    (order_id : String) (db : Db) (n : ℕ) (y : Db × List MoneyCall × Bool)
    → n ≡ 0
    → Ends order_id db y
    → PaidOnce order_id y.0 (n + payments y.1)
first_paid order_id db n _ z (unpaid calls m) = inl (omega (arith, z, m))
first_paid order_id db n _ z (pending r calls e m) = inl (omega (arith, z, m))
first_paid order_id db n _ z (paid r note calls e m) =
    inr (omega (arith, z, m), completed-IsRefunded order_id r note db e)

paid_step :
    (order_id other : String) (db : Db) (n : ℕ) (x : Db × List MoneyCall × Bool)
    → Ends other db x
    → PaidOnce order_id db n
    → PaidOnce order_id x.0 (n + (if str_eq other order_id then payments x.1 else 0))
paid_step order_id other db n x ends (inr (one, h)) = elim (Bool-cases (str_eq other order_id)) [
  | inr u ↦ rw u (inr (omega (arith, one), Ends-IsRefunded order_id other db x ends h))
  | inl t ↦
      let same = equal_texts other order_id t in
      let none_more = IsRefunded-unpaid order_id db x h (subst (λ o. Ends o db x) same ends) in
      rw t (inr (omega (arith, one, none_more), Ends-IsRefunded order_id other db x ends h))
]
paid_step order_id other db n x ends (inl z) = elim (Bool-cases (str_eq other order_id)) [
  | inr u ↦ rw u (inl (omega (arith, z)))
  | inl t ↦
      rw t (
        first_paid order_id db n x z (subst (λ o. Ends o db x) (equal_texts other order_id t) ends))
]

MoneyRun-PaidOnce :
    (order_id : String) (db db' : Db) (n : ℕ) → MoneyRun order_id db db' n → PaidOnce order_id db' n
MoneyRun-PaidOnce order_id db _ _ start = inl refl
MoneyRun-PaidOnce order_id db _ _ (returns {db' = db'} {db'' = db''} {n = n} run step) =
    elim (MoneyRun-PaidOnce order_id db db' n run) [
      | inl z ↦ inl z
      | inr (one, h) ↦ inr (one, step-IsRefunded order_id db' db'' step h)
    ]
MoneyRun-PaidOnce order_id db _ _ (refunds {db' = db'} {n = n} out cover reason orders other run) =
    paid_step order_id other db' n _ (process_refund-Ends out cover reason orders other db')
      (MoneyRun-PaidOnce order_id db db' n run)
MoneyRun-PaidOnce order_id db _ _ (transfers {db' = db'} {n = n} t cover orders other run) =
    paid_step order_id other db' n _ (process_bank_transfer_refund-Ends t cover orders other db')
      (MoneyRun-PaidOnce order_id db db' n run)

-- Whatever operations on returns (return_core.py, return_stock.py) and calls of process_refund and
-- process_bank_transfer_refund, for any orders and with whatever the services answer, follow one
-- another, those two functions together make at most one payment for one order. The refund that
-- cancel_order makes by itself is no part of the run and is not counted.
pub money_goes_back_once :
    (order_id : String) (db db' : Db) (n : ℕ) → MoneyRun order_id db db' n → n ≤ 1
money_goes_back_once order_id db db' n run = elim (MoneyRun-PaidOnce order_id db db' n run) [
  | inl z ↦ omega (arith, z)
  | inr (one, h) ↦ omega (arith, one)
]
