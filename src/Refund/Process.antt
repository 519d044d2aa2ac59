-- ===== src/Refund/Process.antt =====
-- process_refund and process_bank_transfer_refund of magazyn/services/return_refunds.py. An answer
-- is the tables, the calls, and whether the money went back.
use Prim.Native.String.{count}
use retrievershop_suite.Prelude.{
  ℕ, String, Option, none, some, List, [], ◌∷◌, Bool, true, false, not, ◌&&◌, ◌||◌, ltb, ◌==◌,
  if◌then◌else◌, str_eq, mem_text, is_truthy, is_some, get_or, find_first,
}
use retrievershop_suite.Returns.Rows.{
  Return, ReturnStatusLog, Db, put_return, return_status_in_transit, return_status_delivered,
  return_status_not_collected, return_status_completed,
}
use retrievershop_suite.Returns.Core.{add_return_status_log, is_of_order}
use retrievershop_suite.Returns.Restock.{is_received}
use retrievershop_suite.Refund.Rows.{
  RefundOrder, RefundOutside, AllegroRefund, failed, answered, MoneyCall, allegro_refund,
  woo_refund, bank_transfer, generate_correction_invoice, is_woo_order, is_woo_return,
  is_manual_return, woo_refund_amount,
}

abbrev pub cod_pending_note : String
cod_pending_note =
    "Pobranie niezaksiegowane przez Allegro — zwrot API zablokowany do wplywu srodkow na konto Allegro"

-- A return whose pieces are in stock again is refunded without the data of Allegro.
unfoldable pub is_stock_restored_refund_override : Return → Bool
is_stock_restored_refund_override r = r.stock_restored && is_received r.status

abbrev pub is_refundable : String → Bool
is_refundable status = mem_text status (
    return_status_delivered ∷ return_status_in_transit ∷ return_status_not_collected
    ∷ return_status_completed ∷ [])

abbrev pub is_pending_note : Return → ReturnStatusLog → Bool
is_pending_note r l = l.return_id == r.id && str_eq (get_or l.notes "") cod_pending_note

unfoldable pub log_cod_pending_once : Return → Db → Db
unfolding add_return_status_log
log_cod_pending_once r db =
    if is_some (find_first (is_pending_note r) db.return_logs)
    then db
    else add_return_status_log r.id r.status (some cod_pending_note) db

abbrev pub complete : Return → Return
complete r = record r { status = return_status_completed; refund_processed = true }

-- The return is completed and refunded, with its row in the log (of its text the beginning).
unfoldable pub complete_refund : Return → String → Db → Db
unfolding add_return_status_log
complete_refund r note db =
    add_return_status_log r.id return_status_completed (some note) (put_return r.id complete db)

-- Whether `_check_cod_settlement` has a message: the money is pending, or the data failed.
unfoldable pub check_cod_settlement : RefundOutside → RefundOrder → String → Bool
check_cod_settlement out order external_id =
    if not order.is_cod || str_eq external_id ""
    then false
    else elim (out.get_checkout_form external_id) [
      | failed error ↦ true
      | answered checkout ↦ out.is_settlement_pending checkout
    ]

-- `_resolve_return_items`: the items of the customer return come first.
unfoldable pub resolve_return_items : RefundOutside → Return → Option String → Option String
resolve_return_items out r none = out.load_items r.items_json
resolve_return_items out r (some allegro_return) = elim (out.return_items allegro_return) [
  | none ↦ out.load_items r.items_json
  | some items ↦ some items
]

-- The line items, none for the whole order; the outer option is none on an error.
unfoldable pub build_refund_execution :
    RefundOutside → Bool → Return → String → Option String → Option (Option String)
unfolding resolve_return_items
build_refund_execution out cover r external_id allegro_return =
    elim (resolve_return_items out r allegro_return) [
      | none ↦ some none
      | some items ↦ elim (out.get_checkout_form external_id) [
        | failed error ↦ none
        | answered checkout ↦ elim (out.build_partial_refund_details items checkout cover) [
          | failed error ↦ none
          | answered line_items ↦ some (some line_items)
        ]
      ]
    ]

abbrev pub or_default : Option String → String → Option String
or_default reason text = if is_truthy reason then reason else some text

unfoldable pub effective_reason : Option String → Return → Option String
unfolding is_stock_restored_refund_override
effective_reason reason r =
    if str_eq r.status return_status_not_collected
    then or_default reason "Nie odebrano przesylki"
    else if is_stock_restored_refund_override r
    then or_default reason "Zwrot potwierdzony po przywroceniu stanu"
    else if is_manual_return r
    then or_default reason "Ręczny zwrot poza Allegro"
    else reason

-- The data of the customer return, where they are asked for; the outer option is none on an error.
unfoldable pub fetch_return : RefundOutside → Return → Option (Option String)
unfolding is_stock_restored_refund_override
fetch_return out r =
    let return_id = get_or r.allegro_return_id "" in
    if not (is_truthy r.allegro_return_id) || is_stock_restored_refund_override r
    then some none
    else elim (out.get_customer_return return_id) [
      | failed error ↦ none
      | answered found ↦ some (some found)
    ]

module _ (out : RefundOutside) (cover : Bool) (reason : Option String) where
  unfoldable pub process_woo_refund :
      RefundOrder → Return → String → Db → Db × List MoneyCall × Bool
  unfolding complete_refund
  process_woo_refund order r external_id db =
      let amount = woo_refund_amount out order r cover in
      let success =
        out.create_order_refund external_id amount
          (get_or (or_default reason "Zwrot produktow (Woo)") "") in
      if order.is_cod || order.is_woo_cod
      then (db, [], false)
      else if success
      then (
        complete_refund r "Zwrot pieniedzy przez Woo REST" db,
        woo_refund external_id amount true ∷ generate_correction_invoice order.order_id cover ∷ [],
        true,
      )
      else (db, woo_refund external_id amount false ∷ [], false)

  -- What follows `initiate_refund`.
  unfoldable pub finish_refund :
      RefundOrder → Return → AllegroRefund → Db → Bool × String → Db × List MoneyCall × Bool
  unfolding complete_refund log_cod_pending_once
  finish_refund order r q db (true, message) = (
    complete_refund r "Zwrot pieniedzy zainicjowany przez Allegro API." db,
    allegro_refund q true ∷ generate_correction_invoice order.order_id cover ∷ [],
    true,
  )
  finish_refund order r q db (false, message) = (
    if out.is_cod_not_paid_error message then log_cod_pending_once r db else db,
    allegro_refund q false ∷ [],
    false,
  )

  unfoldable pub refund_items :
      RefundOrder → Return → String → Db → Option (Option String) → Db × List MoneyCall × Bool
  unfolding finish_refund
  refund_items order r external_id db none = (db, [], false)
  refund_items order r external_id db (some line_items) =
      let q : AllegroRefund = record {
        return_id = if is_stock_restored_refund_override r then none else r.allegro_return_id;
        order_external_id = external_id;
        line_items = line_items;
        delivery_cost_covered = cover;
        reason = effective_reason reason r;
      } in
      finish_refund order r q db (out.initiate_refund q)

  unfoldable pub refund_fetched :
      RefundOrder → Return → String → Db → Option (Option String) → Db × List MoneyCall × Bool
  unfolding refund_items
  refund_fetched order r external_id db none = (db, [], false)
  refund_fetched order r external_id db (some allegro_return) =
      refund_items order r external_id db
        (build_refund_execution out cover r external_id allegro_return)

  unfoldable pub process_allegro_refund :
      RefundOrder → Return → String → Db → Db × List MoneyCall × Bool
  unfolding refund_fetched log_cod_pending_once
  process_allegro_refund order r external_id db =
      if not out.has_access_token
      then (db, [], false)
      else if check_cod_settlement out order external_id
      then (log_cod_pending_once r db, [], false)
      else if not (is_truthy r.allegro_return_id) && not (is_manual_return r)
      then (db, [], false)
      else refund_fetched order r external_id db (fetch_return out r)

  unfoldable pub refund_order :
      RefundOrder → Return → Db → Option String → Db × List MoneyCall × Bool
  unfolding process_woo_refund process_allegro_refund
  refund_order order r db none = (db, [], false)
  refund_order order r db (some external_id) =
      if str_eq external_id ""
      then (db, [], false)
      else if is_woo_order order.order_id || is_woo_return r
      then process_woo_refund order r external_id db
      else process_allegro_refund order r external_id db

abbrev pub is_order_row : String → RefundOrder → Bool
is_order_row order_id order = str_eq order.order_id order_id

-- The tests that both ways of paying share: the return of the order, not yet refunded and in a
-- status that allows it.
unfoldable pub refundable_return : String → Db → Option Return
refundable_return order_id db = elim (find_first (is_of_order order_id) db.returns) [
  | none ↦ none
  | some r ↦ if r.refund_processed then none else if is_refundable r.status then some r else none
]

unfoldable pub process_refund :
    RefundOutside
    → Bool
    → Option String
    → List RefundOrder
    → String
    → Db
    → Db × List MoneyCall × Bool
unfolding refund_order
process_refund out cover reason orders order_id db = elim (refundable_return order_id db) [
  | none ↦ (db, [], false)
  | some r ↦ elim (find_first (is_order_row order_id) orders) [
    | none ↦ (db, [], false)
    | some order ↦ refund_order out cover reason order r db order.external_order_id
  ]
]

-- The checked arguments: the normalized IBAN where it has the format, the name without the blanks
-- around it, the amount in grosze where it is one and positive.
pub record BankTransfer : Type 0 where
  pub iban : Option String
  pub recipient : String
  pub amount : Option ℕ

-- What follows the checks of the arguments and of the return.
unfoldable pub transfer_money :
    Bool → List RefundOrder → String → ℕ → Db → Option Return → Db × List MoneyCall × Bool
unfolding complete_refund
transfer_money cover orders order_id amount db none = (db, [], false)
transfer_money cover orders order_id amount db (some r) =
    elim (find_first (is_order_row order_id) orders) [
      | none ↦ (db, [], false)
      | some order ↦ (
        complete_refund r "Zwrot przelewem bankowym" db,
        bank_transfer order_id amount ∷ generate_correction_invoice order_id cover ∷ [],
        true,
      )
    ]

unfoldable pub process_bank_transfer_refund :
    BankTransfer → Bool → List RefundOrder → String → Db → Db × List MoneyCall × Bool
unfolding transfer_money
process_bank_transfer_refund t cover orders order_id db =
    if not (is_some t.iban) || ltb (count t.recipient) 2 then (db, [], false) else elim t.amount [
      | none ↦ (db, [], false)
      | some amount ↦ transfer_money cover orders order_id amount db (refundable_return order_id db)
    ]
