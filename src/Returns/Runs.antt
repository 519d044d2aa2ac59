-- ===== src/Returns/Runs.antt =====
-- The operations on returns one after another (magazyn/services/return_core.py, return_stock.py).
use retrievershop_suite.Prelude.{
  ℕ, ◌≡◌, subst, String, Option, none, some, List, [], ◌∷◌, Bool, false, inl, inr, Bool-cases,
  Option-cases, find_first, select, ◌==◌, All,
}
use retrievershop_suite.OrderStatus.Rows as OrderRows
use retrievershop_suite.Returns.Rows.{Return, ReturnItem, Db, has_return_id}
use retrievershop_suite.Returns.Core.{
  ReturnRequest, create_return_from_order, expire_stale_returns, is_stale, mark_return_as_delivered,
  mark_return_as_not_collected,
}
use retrievershop_suite.Returns.Restock.{
  restore_items, is_received, accept_return, accepted_status, load_items, restore_loaded,
  restore_found, restore_stock_for_return, process_each, process_delivered_returns, Stats,
  is_delivered,
}
use retrievershop_suite.Returns.Branches.{
  restore_items-returns, restore-found, restore-missing, restore_found-flagged,
  restore_found-refused, restore_found-loaded, found-id,
}
use retrievershop_suite.Returns.Calls.{accept_return-found}
use retrievershop_suite.Returns.Tracked.{AreTracked}
use retrievershop_suite.Returns.Steps.{
  accept_return-AreTracked, restore_items-AreTracked, finish_restore-AreTracked,
  mark_return-AreTracked, create_return_from_order-AreTracked, expire_all-AreTracked,
}

module _ (loads : String → Option (List ReturnItem)) (sends accept : Bool) where
  restore_loaded-AreTracked :
      (r : Return) (db db' : Db) (o : Option (List ReturnItem))
      → find_first (has_return_id r.id) db'.returns
        ≡ some (record r { status = accepted_status accept r })
      → AreTracked db
      → AreTracked db'
      → AreTracked (restore_loaded sends r (accepted_status accept r) db db' o).0
  unfolding restore_loaded
  restore_loaded-AreTracked r db db' none e h h' = h
  restore_loaded-AreTracked r db db' (some items) e h h' =
      let rest = restore_items r.order_id items db' in
      finish_restore-AreTracked sends r (record r { status = accepted_status accept r }) rest.0
        rest.1 (rw (restore_items-returns r.order_id items db') e)
        (restore_items-AreTracked r.order_id items db' h')

  restore_found-AreTracked :
      (r : Return) (db : Db)
      → find_first (has_return_id r.id) db.returns ≡ some r
      → AreTracked db
      → AreTracked (restore_found loads sends accept r db).0
  restore_found-AreTracked r db e h =
      let h' = accept_return-AreTracked accept r db h in
      elim (Bool-cases r.stock_restored) [
        | inl again ↦ rw (restore_found-flagged loads sends accept r db again) h
        | inr fresh ↦ elim (Bool-cases (is_received (accepted_status accept r))) [
          | inl t ↦ rw (restore_found-loaded loads sends accept r db fresh t) (
              restore_loaded-AreTracked r db (accept_return accept r db)
                (load_items loads r.items_json) (accept_return-found loads sends accept r db e) h
                h')
          | inr u ↦ rw (restore_found-refused loads sends accept r db fresh u) h'
        ]
      ]

  restore_stock_for_return-AreTracked :
      (return_id : ℕ) (db : Db)
      → AreTracked db
      → AreTracked (restore_stock_for_return loads sends accept return_id db).0
  restore_stock_for_return-AreTracked return_id db h =
      elim (Option-cases (find_first (has_return_id return_id) db.returns)) [
        | inl e ↦ rw (restore-missing loads sends accept return_id db e) h
        | inr (r, e) ↦ rw (restore-found loads sends accept r return_id db e) (
            restore_found-AreTracked r db
              (subst (λ (k : ℕ). find_first (has_return_id k) db.returns ≡ some r)
                (found-id return_id r db e) e)
              h)
      ]

process_each-AreTracked :
    (restore_stock : ℕ → Db → Db × Bool) (rs : List Return) (stats : Stats) (db : Db)
    → ((return_id : ℕ) (d : Db) → AreTracked d → AreTracked (restore_stock return_id d).0)
    → AreTracked db
    → AreTracked (process_each restore_stock rs stats db).0
unfolding process_each
process_each-AreTracked restore_stock [] stats db keeps h = h
process_each-AreTracked restore_stock (r ∷ rs) stats db keeps h =
    process_each-AreTracked restore_stock rs _ (restore_stock r.id db).0 keeps (keeps r.id db h)

-- One operation on returns. A new row gets an id that no return has.
pub data ReturnStep (db : Db) : Db → Type 0 where
  creates :
      (dumps : List ReturnItem → String) (summary : OrderRows.Order → List ReturnItem)
      (customer_name : OrderRows.Order → Option String) (id now : ℕ) (q : ReturnRequest)
      → All (λ x. (id == x.id) ≡ false) db.returns
      → ReturnStep db (create_return_from_order dumps summary customer_name id now q db).0
  expires :
      (dispatch_email : OrderRows.Db → String → String → OrderRows.Db) (now : ℕ)
      → ReturnStep db (expire_stale_returns dispatch_email now db)
  delivers : (return_id : ℕ) → ReturnStep db (mark_return_as_delivered return_id db).0
  stays :
      (notes : String) (return_id : ℕ)
      → ReturnStep db (mark_return_as_not_collected notes return_id db).0
  restores :
      (loads : String → Option (List ReturnItem)) (sends accept : Bool) (return_id : ℕ)
      → ReturnStep db (restore_stock_for_return loads sends accept return_id db).0
  processes :
      (loads : String → Option (List ReturnItem)) (sends : Bool)
      → ReturnStep db (process_delivered_returns (restore_stock_for_return loads sends false) db).0

pub data ReturnRun (db : Db) : Db → Type 0 where
  start : ReturnRun db db
  next : {db' db'' : Db} → ReturnRun db db' → ReturnStep db' db'' → ReturnRun db db''

step-AreTracked : (db db' : Db) → ReturnStep db db' → AreTracked db → AreTracked db'
unfolding expire_stale_returns process_delivered_returns mark_return_as_delivered
    mark_return_as_not_collected
step-AreTracked db _ (creates dumps summary customer_name id now q new) h =
    create_return_from_order-AreTracked dumps summary customer_name id now q db new h
step-AreTracked db _ (expires dispatch_email now) h =
    expire_all-AreTracked dispatch_email now (select (is_stale now) db.returns) db h
step-AreTracked db _ (delivers return_id) h = mark_return-AreTracked _ _ return_id db h
step-AreTracked db _ (stays notes return_id) h = mark_return-AreTracked _ _ return_id db h
step-AreTracked db _ (restores loads sends accept return_id) h =
    restore_stock_for_return-AreTracked loads sends accept return_id db h
step-AreTracked db _ (processes loads sends) h =
    process_each-AreTracked (restore_stock_for_return loads sends false)
      (select is_delivered db.returns) _ db
      (λ return_id d. restore_stock_for_return-AreTracked loads sends false return_id d) h

-- Whatever operations on returns follow one another (new and repeated notifications, marks by hand,
-- expiries, restocking by hand or for all delivered returns), new returns having ids that no return
-- has, the last row in the log of a return always holds the return's status, where this held before
-- the first.
pub ReturnRun-AreTracked : (db db' : Db) → ReturnRun db db' → AreTracked db → AreTracked db'
ReturnRun-AreTracked db _ start h = h
ReturnRun-AreTracked db _ (next {db' = db'} {db'' = db''} run step) h =
    step-AreTracked db' db'' step (ReturnRun-AreTracked db db' run h)
