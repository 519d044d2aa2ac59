-- ===== src/Returns/Core.antt =====
-- The operations of magazyn/services/return_core.py.
use Prim.Native.String.{◌++◌ as text_append}
use retrievershop_suite.Prelude.{
  ℕ, ◌+◌, ◌*◌, String, Option, none, some, List, [], ◌∷◌, ◌++◌, Bool, true, false, not, ◌&&◌, ltb,
  if◌then◌else◌, str_eq, is_truthy, is_some, find_first, select, get_or,
}
use retrievershop_suite.OrderStatus.Rows as OrderRows
use retrievershop_suite.OrderStatus.Rows.{StatusDetails}
use retrievershop_suite.OrderStatus.Service.{add_order_status, has_id}
use retrievershop_suite.Returns.Rows.{
  Return, ReturnItem, Db, has_return_id, put_return, return_status_pending, return_status_cancelled,
  return_status_delivered, return_status_not_collected,
}

unfoldable pub add_return_status_log : ℕ → String → Option String → Db → Db
add_return_status_log return_id status notes db = record db {
  return_logs = record { return_id = return_id; status = status; notes = notes } ∷ db.return_logs;
}

-- `r.status = status` with its row in the log.
unfoldable pub set_status : ℕ → String → Option String → Db → Db
unfolding add_return_status_log
set_status return_id status notes db =
    add_return_status_log return_id status notes
      (put_return return_id (λ r. record r { status = status }) db)

-- `notes or text`
abbrev pub note_or : Option String → String → Option String
note_or notes text = if is_truthy notes then notes else some text

-- The arguments of create_return_from_order; `status` has the default "pending".
pub record ReturnRequest : Type 0 where
  pub order_id : String
  pub tracking_number : Option String
  pub allegro_return_id : Option String
  pub return_carrier : Option String
  pub status : String
  pub notes : Option String
  pub woo_withdrawal_id : Option String
  pub items : Option (List ReturnItem)
  pub customer_name : Option String

abbrev pub is_of_order : String → Return → Bool
is_of_order order_id r = str_eq r.order_id order_id

abbrev pub is_text : String → Option String → Bool
is_text s none = false
is_text s (some t) = str_eq t s

-- The return of the withdrawal, if one is given and has one.
unfoldable pub find_withdrawal : Option String → List Return → Option Return
find_withdrawal none returns = none
find_withdrawal (some w) returns =
    if str_eq w "" then none else find_first (λ r. is_text w r.woo_withdrawal_id) returns

unfoldable pub find_existing : ReturnRequest → List Return → Option Return
unfolding find_withdrawal
find_existing q returns = elim (find_withdrawal q.woo_withdrawal_id returns) [
  | some r ↦ some r
  | none ↦ find_first (is_of_order q.order_id) returns
]

-- `if value and row.column != value: row.column = value`
abbrev pub assign : Option String → Option String → Option String
assign value old = if is_truthy value then value else old

-- The columns of an existing return, its status apart.
unfoldable pub update_columns : (List ReturnItem → String) → ReturnRequest → Return → Return
update_columns dumps q r = record r {
  return_tracking_number = assign q.tracking_number r.return_tracking_number;
  return_carrier = assign q.return_carrier r.return_carrier;
  allegro_return_id = assign q.allegro_return_id r.allegro_return_id;
  woo_withdrawal_id = assign q.woo_withdrawal_id r.woo_withdrawal_id;
  notes = assign q.notes r.notes;
  items_json = elim q.items [ none ↦ r.items_json | some items ↦ some (dumps items) ];
}

unfoldable pub update_existing : (List ReturnItem → String) → ReturnRequest → Return → Db → Db
unfolding update_columns set_status
update_existing dumps q r db =
    let db' = put_return r.id (update_columns dumps q) db in
    if str_eq q.status ""
    then db'
    else if str_eq r.status q.status
    then db'
    else set_status r.id q.status
        (note_or q.notes (text_append "Aktualizacja zwrotu dla zamowienia " q.order_id)) db'

unfoldable pub new_return :
    (List ReturnItem → String)
    → (OrderRows.Order → List ReturnItem)
    → (OrderRows.Order → Option String)
    → ℕ
    → ℕ
    → ReturnRequest
    → OrderRows.Order
    → Return
new_return dumps summary customer_name id now q order = record {
  id = id;
  order_id = q.order_id;
  status = q.status;
  customer_name = if is_truthy q.customer_name then q.customer_name else customer_name order;
  items_json = some (dumps (get_or q.items (summary order)));
  return_tracking_number = q.tracking_number;
  return_carrier = q.return_carrier;
  allegro_return_id = q.allegro_return_id;
  woo_withdrawal_id = if is_truthy q.woo_withdrawal_id then q.woo_withdrawal_id else none;
  stock_restored = false;
  refund_processed = false;
  notes = q.notes;
  created_at = now;
}

-- Arguments: json.dumps, what the order tells of its products and its customer, and the id and the
-- time that the database gives to a new row. The result is the id of the return.
unfoldable pub create_return_from_order :
    (List ReturnItem → String)
    → (OrderRows.Order → List ReturnItem)
    → (OrderRows.Order → Option String)
    → ℕ
    → ℕ
    → ReturnRequest
    → Db
    → Db × Option ℕ
unfolding find_existing update_existing new_return add_return_status_log
create_return_from_order dumps summary customer_name id now q db =
    elim (find_first (has_id q.order_id) db.orders.orders) [
      | none ↦ (db, none)
      | some order ↦ elim (find_existing q db.returns) [
        | some r ↦ (update_existing dumps q r db, some r.id)
        | none ↦
            let r = new_return dumps summary customer_name id now q order in
            (
              add_return_status_log id q.status
                  (note_or q.notes (text_append "Utworzono zwrot dla zamowienia " q.order_id))
                  (record db { returns = db.returns ++ (r ∷ []) }),
              some id,
            )
      ]
    ]

-- Times count seconds; a return is stale when it was created more than 16 days ago.
abbrev pub is_stale : ℕ → Return → Bool
is_stale now r =
    str_eq r.status return_status_pending
    && (not (is_some r.return_tracking_number) && ltb (r.created_at + 16 * 86400) now)

abbrev pub expiry_note : String
expiry_note = "Zwrot wygasl - brak nadania przesylki w ciagu 16 dni od zgloszenia"

abbrev pub restored_note : String
restored_note =
    "Zwrot wygasl (brak nadania w terminie) - przywrocono status zakonczonego zamowienia"

abbrev pub expiry_details : StatusDetails
expiry_details = record { tracking_number = none; courier_code = none; notes = some restored_note }

-- The turn of the loop for one stale return.
unfoldable pub expire_return :
    (OrderRows.Db → String → String → OrderRows.Db) → ℕ → Return → Db → Db
unfolding set_status
expire_return dispatch_email now r db =
    let db' = set_status r.id return_status_cancelled (some expiry_note) db in
    record db' {
      orders =
          (add_order_status dispatch_email now db'.orders r.order_id "dostarczono" true true true
            expiry_details).0;
    }

unfoldable pub expire_all :
    (OrderRows.Db → String → String → OrderRows.Db) → ℕ → List Return → Db → Db
unfolding expire_return
expire_all dispatch_email now [] db = db
expire_all dispatch_email now (r ∷ rs) db =
    expire_all dispatch_email now rs (expire_return dispatch_email now r db)

unfoldable pub expire_stale_returns : (OrderRows.Db → String → String → OrderRows.Db) → ℕ → Db → Db
unfolding expire_all
expire_stale_returns dispatch_email now db =
    expire_all dispatch_email now (select (is_stale now) db.returns) db

-- The two marks by hand: a status set once.
unfoldable pub mark_return : String → Option String → ℕ → Db → Db × Bool
unfolding set_status
mark_return status notes return_id db = elim (find_first (has_return_id return_id) db.returns) [
  | none ↦ (db, false)
  | some r ↦
      (if str_eq r.status status then (db, true) else (set_status r.id status notes db, true))
]

unfoldable pub mark_return_as_delivered : ℕ → Db → Db × Bool
unfolding mark_return
mark_return_as_delivered =
    mark_return return_status_delivered (some "Reczne oznaczenie jako dostarczone")

-- The default of `notes` is "Oznaczono jako nieodebrany zwrot".
unfoldable pub mark_return_as_not_collected : String → ℕ → Db → Db × Bool
unfolding mark_return
mark_return_as_not_collected notes = mark_return return_status_not_collected (some notes)
