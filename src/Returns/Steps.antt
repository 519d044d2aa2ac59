-- ===== src/Returns/Steps.antt =====
-- That each part of the operations on returns keeps the log of statuses true (magazyn/services/return_core.py, return_stock.py).
use retrievershop_suite.Prelude.{
  ℕ, ◌≡◌, refl, sym, subst, ◌∙◌, String, Option, some, List, [], ◌∷◌, ◌++◌, Bool, true, false, ◌&&◌,
  inl, inr, Bool-cases, Option-cases, find_first, find_first-update_where, ◌==◌, arith, str_eq, All,
  All-append, All-find_first,
}
use retrievershop_suite.OrderStatus.Rows as OrderRows
use retrievershop_suite.OrderStatus.Service.{has_id}
use retrievershop_suite.Returns.Rows.{
  Return, ReturnStatusLog, ReturnItem, RestoredItem, Db, has_return_id, put_return,
  return_status_cancelled, return_status_delivered,
}
use retrievershop_suite.Returns.Core.{
  ReturnRequest, add_return_status_log, set_status, update_columns, update_existing, find_existing,
  new_return, create_return_from_order, expire_return, expire_all, mark_return, expiry_note,
}
use retrievershop_suite.Returns.Restock.{restore_items, is_waiting, accept_return, finish_restore}
use retrievershop_suite.Returns.Branches.{
  restore_items-returns, restore_items-return_logs, found-id,
}
use retrievershop_suite.Returns.Tracked.{
  IsTracked, AreTracked, is_log_of, set_status-AreTracked, put-all, repeat-all, own_log, other_log,
}

-- Adding a row to the log that repeats the status of a return with this id.
repeat-AreTracked :
    (return_id : ℕ) (r : Return) (status : String) (notes : Option String) (db : Db)
    → find_first (has_return_id return_id) db.returns ≡ some r
    → r.status ≡ status
    → AreTracked db
    → AreTracked (add_return_status_log return_id status notes db)
unfolding AreTracked add_return_status_log
repeat-AreTracked return_id r status notes db e same h =
    let t = All-find_first (IsTracked db.return_logs) (has_return_id return_id) db.returns r h e in
    let q = found-id return_id r db e in
    repeat-all (record { return_id = return_id; status = status; notes = notes }) t.last
      db.return_logs db.returns
      (subst (λ (k : ℕ). find_first (is_log_of k) db.return_logs ≡ some t.last) (sym q) t.found)
      (t.agrees ∙ same) h

update_columns-AreTracked :
    (dumps : List ReturnItem → String) (q : ReturnRequest) (return_id : ℕ) (db : Db)
    → AreTracked db
    → AreTracked (put_return return_id (update_columns dumps q) db)
unfolding AreTracked update_columns
update_columns-AreTracked dumps q return_id db h =
    put-all (update_columns dumps q) return_id db.return_logs db.returns (λ x. refl) (λ x. refl) h

update_existing-AreTracked :
    (dumps : List ReturnItem → String) (q : ReturnRequest) (r : Return) (db : Db)
    → AreTracked db
    → AreTracked (update_existing dumps q r db)
unfolding update_existing
update_existing-AreTracked dumps q r db h =
    let db' = put_return r.id (update_columns dumps q) db in
    let h' : AreTracked db' = update_columns-AreTracked dumps q r.id db h in
    elim (Bool-cases (str_eq q.status "")) [
      | inl t ↦ rw t h'
      | inr u ↦ elim (Bool-cases (str_eq r.status q.status)) [
        | inl t ↦ rw (u, t) h'
        | inr v ↦ rw (u, v) (set_status-AreTracked r.id q.status _ db' h')
      ]
    ]

-- A new row under an id that no return has, with its row in the log.
fresh-all :
    (l : ReturnStatusLog) (logs : List ReturnStatusLog) (rows : List Return)
    → All (λ x. (l.return_id == x.id) ≡ false) rows
    → All (IsTracked logs) rows
    → All (IsTracked (l ∷ logs)) rows
fresh-all l logs [] new h = tt
fresh-all l logs (x ∷ rows) new h = (other_log l logs x new.0 h.0, fresh-all l logs rows new.1 h.1)

self_eq : (n : ℕ) → (n == n) ≡ true
self_eq n = ground arith

module _ (dumps : List ReturnItem → String) (summary : OrderRows.Order → List ReturnItem)
    (customer_name : OrderRows.Order → Option String) where
  added-AreTracked :
      (id now : ℕ) (q : ReturnRequest) (notes : Option String) (order : OrderRows.Order) (db : Db)
      → All (λ x. (id == x.id) ≡ false) db.returns
      → AreTracked db
      → AreTracked (
          add_return_status_log id q.status notes (record db {
            returns = db.returns ++ (new_return dumps summary customer_name id now q order ∷ []);
          }))
  unfolding AreTracked add_return_status_log new_return
  added-AreTracked id now q notes order db new h =
      let l : ReturnStatusLog = record { return_id = id; status = q.status; notes = notes } in
      All-append (IsTracked (l ∷ db.return_logs)) db.returns _
        (fresh-all l db.return_logs db.returns new h)
        (
          own_log l db.return_logs (new_return dumps summary customer_name id now q order)
              (self_eq id) refl,
          tt,
        )

  pub create_return_from_order-AreTracked :
      (id now : ℕ) (q : ReturnRequest) (db : Db)
      → All (λ x. (id == x.id) ≡ false) db.returns
      → AreTracked db
      → AreTracked (create_return_from_order dumps summary customer_name id now q db).0
  unfolding create_return_from_order
  create_return_from_order-AreTracked id now q db new h =
      elim (Option-cases (find_first (has_id q.order_id) db.orders.orders)) [
        | inl e ↦ rw (e, create_return_from_order) h
        | inr (order, e) ↦ elim (Option-cases (find_existing q db.returns)) [
          | inr (r, e') ↦
              rw (e, e', create_return_from_order) (update_existing-AreTracked dumps q r db h)
          | inl e' ↦
              rw (e, e', create_return_from_order) (added-AreTracked id now q _ order db new h)
        ]
      ]

module _ (dispatch_email : OrderRows.Db → String → String → OrderRows.Db) (now : ℕ) where
  expire_return-AreTracked :
      (r : Return) (db : Db) → AreTracked db → AreTracked (expire_return dispatch_email now r db)
  unfolding expire_return AreTracked set_status add_return_status_log
  expire_return-AreTracked r db h =
      set_status-AreTracked r.id return_status_cancelled (some expiry_note) db h

  pub expire_all-AreTracked :
      (rs : List Return) (db : Db)
      → AreTracked db
      → AreTracked (expire_all dispatch_email now rs db)
  unfolding expire_all
  expire_all-AreTracked [] db h = h
  expire_all-AreTracked (r ∷ rs) db h =
      expire_all-AreTracked rs (expire_return dispatch_email now r db)
        (expire_return-AreTracked r db h)

pub mark_return-AreTracked :
    (status : String) (notes : Option String) (return_id : ℕ) (db : Db)
    → AreTracked db
    → AreTracked (mark_return status notes return_id db).0
unfolding mark_return
mark_return-AreTracked status notes return_id db h =
    elim (Option-cases (find_first (has_return_id return_id) db.returns)) [
      | inl e ↦ rw (e, mark_return) h
      | inr (r, e) ↦ elim (Bool-cases (str_eq r.status status)) [
        | inl t ↦ rw (e, t, mark_return) h
        | inr u ↦ rw (e, u, mark_return) (set_status-AreTracked r.id status notes db h)
      ]
    ]

pub accept_return-AreTracked :
    (accept : Bool) (r : Return) (db : Db) → AreTracked db → AreTracked (accept_return accept r db)
unfolding accept_return
accept_return-AreTracked accept r db h = elim (Bool-cases (accept && is_waiting r.status)) [
  | inl t ↦ rw t (set_status-AreTracked r.id return_status_delivered _ db h)
  | inr u ↦ rw u h
]

pub restore_items-AreTracked :
    (order_id : String) (items : List ReturnItem) (db : Db)
    → AreTracked db
    → AreTracked (restore_items order_id items db).0
unfolding AreTracked
restore_items-AreTracked order_id items db h =
    rw (restore_items-returns order_id items db, restore_items-return_logs order_id items db) h

flag-AreTracked :
    (return_id : ℕ) (db : Db)
    → AreTracked db
    → AreTracked (put_return return_id (λ x. record x { stock_restored = true }) db)
unfolding AreTracked
flag-AreTracked return_id db h =
    put-all (λ x. record x { stock_restored = true }) return_id db.return_logs db.returns
      (λ x. refl) (λ x. refl) h

sent-AreTracked :
    (message : String × List RestoredItem) (db : Db)
    → AreTracked db
    → AreTracked (record db { messages = message ∷ db.messages })
unfolding AreTracked
sent-AreTracked message db h = h

pub finish_restore-AreTracked :
    (sends : Bool) (r r' : Return) (db : Db) (l : List RestoredItem)
    → find_first (has_return_id r.id) db.returns ≡ some r'
    → AreTracked db
    → AreTracked (finish_restore sends r r'.status (db, l)).0
unfolding finish_restore
finish_restore-AreTracked sends r r' db [] e h = h
finish_restore-AreTracked sends r r' db (x ∷ xs) e h = elim (Bool-cases sends) [
  | inl t ↦ rw t (sent-AreTracked (r.order_id, x ∷ xs) _ done)
  | inr u ↦ rw u done
]
  where
    db' : Db
    db' = put_return r.id (λ x. record x { stock_restored = true }) db

    done : AreTracked (add_return_status_log r.id r'.status (some "Przywrocono stan") db')
    done =
        repeat-AreTracked r.id (record r' { stock_restored = true }) r'.status _ db'
          (find_first-update_where (has_return_id r.id) (λ x. record x { stock_restored = true })
            db.returns r' (λ x. refl) e)
          refl (flag-AreTracked r.id db h)
