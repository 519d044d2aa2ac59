-- ===== src/Refund/Flags.antt =====
-- No operation on returns takes back the mark of a refund (magazyn/services/return_core.py,
-- return_stock.py, return_refunds.py).
use retrievershop_suite.Prelude.{
  ℕ, ◌≡◌, refl, ap, String, Option, none, some, List, [], ◌∷◌, ◌++◌, Bool, true, false, ◌&&◌, inl,
  inr, Bool-cases, Option-cases, find_first, find_first-update_other, find_first-append, select,
  update_where, if◌then◌else◌, str_eq,
}
use retrievershop_suite.OrderStatus.Rows as OrderRows
use retrievershop_suite.OrderStatus.Service.{has_id}
use retrievershop_suite.Returns.Rows.{
  Return, ReturnItem, RestoredItem, Db, has_return_id, put_return, return_status_delivered,
  return_status_cancelled,
}
use retrievershop_suite.Returns.Core.{
  ReturnRequest, add_return_status_log, set_status, is_of_order, update_columns, update_existing,
  find_existing, create_return_from_order, expire_return, expire_all, expire_stale_returns,
  mark_return, mark_return_as_delivered, mark_return_as_not_collected, is_stale,
}
use retrievershop_suite.Returns.Restock.{
  restore_items, is_waiting, is_received, accept_return, accepted_status, load_items,
  finish_restore, restore_loaded, restore_found, restore_stock_for_return, process_each,
  process_delivered_returns, Stats, is_delivered,
}
use retrievershop_suite.Returns.Branches.{
  restore_items-returns, restore-found, restore-missing, restore_found-flagged,
  restore_found-refused, restore_found-loaded,
}
use retrievershop_suite.Returns.Runs.{
  ReturnStep, creates, expires, delivers, stays, restores, processes,
}

-- The return that is found for the order is refunded.
pub record IsRefunded (order_id : String) (rows : List Return) : Type 0 where
  pub refunded : Return
  pub found : find_first (is_of_order order_id) rows ≡ some refunded
  pub mark : refunded.refund_processed ≡ true

-- A rewrite that keeps the order and the mark, or sets it.
pub update-IsRefunded :
    (q : Return → Bool) (f : Return → Return) (order_id : String) (rows : List Return)
    → ((x : Return) → (f x).order_id ≡ x.order_id)
    → ((x : Return) → x.refund_processed ≡ true → (f x).refund_processed ≡ true)
    → IsRefunded order_id rows
    → IsRefunded order_id (update_where q f rows)
update-IsRefunded q f order_id rows same keep h = record {
  refunded = if q h.refunded then f h.refunded else h.refunded;
  found =
      find_first-update_other (is_of_order order_id) q f rows h.refunded
        (λ x. ap (λ s. str_eq s order_id) (same x)) h.found;
  mark = marked (q h.refunded);
}
  where
    marked : (b : Bool) → (if b then f h.refunded else h.refunded).refund_processed ≡ true
    marked true = keep h.refunded h.mark
    marked false = h.mark

module _ (order_id : String) where
  abbrev IsSafe : Db → Type 0
  IsSafe db = IsRefunded order_id db.returns

  set_status-IsSafe :
      (return_id : ℕ) (status : String) (notes : Option String) (db : Db)
      → IsSafe db
      → IsSafe (set_status return_id status notes db)
  unfolding set_status add_return_status_log
  set_status-IsSafe return_id status notes db h =
      update-IsRefunded (has_return_id return_id) (λ r. record r { status = status }) order_id
        db.returns (λ x. refl) (λ x e. e) h

  update_existing-IsSafe :
      (dumps : List ReturnItem → String) (q : ReturnRequest) (r : Return) (db : Db)
      → IsSafe db
      → IsSafe (update_existing dumps q r db)
  unfolding update_existing update_columns
  update_existing-IsSafe dumps q r db h =
      let db' = put_return r.id (update_columns dumps q) db in
      let h' : IsSafe db' =
        update-IsRefunded (has_return_id r.id) (update_columns dumps q) order_id db.returns
          (λ x. refl) (λ x e. e) h in
      elim (Bool-cases (str_eq q.status "")) [
        | inl t ↦ rw t h'
        | inr u ↦ elim (Bool-cases (str_eq r.status q.status)) [
          | inl t ↦ rw (u, t) h'
          | inr v ↦ rw (u, v) (set_status-IsSafe r.id q.status none db' h')
        ]
      ]

  append-IsRefunded :
      (rows : List Return) (r : Return)
      → IsRefunded order_id rows
      → IsRefunded order_id (rows ++ (r ∷ []))
  append-IsRefunded rows r h = record {
    refunded = h.refunded;
    found = find_first-append (is_of_order order_id) rows (r ∷ []) h.refunded h.found;
    mark = h.mark;
  }

  create_return_from_order-IsSafe :
      (dumps : List ReturnItem → String) (summary : OrderRows.Order → List ReturnItem)
      (customer_name : OrderRows.Order → Option String) (id now : ℕ) (q : ReturnRequest) (db : Db)
      → IsSafe db
      → IsSafe (create_return_from_order dumps summary customer_name id now q db).0
  unfolding create_return_from_order add_return_status_log
  create_return_from_order-IsSafe dumps summary customer_name id now q db h =
      elim (Option-cases (find_first (has_id q.order_id) db.orders.orders)) [
        | inl e ↦ rw (e, create_return_from_order) h
        | inr (order, e) ↦ elim (Option-cases (find_existing q db.returns)) [
          | inr (r, e') ↦
              rw (e, e', create_return_from_order) (update_existing-IsSafe dumps q r db h)
          | inl e' ↦ rw (e, e', create_return_from_order) (append-IsRefunded db.returns _ h)
        ]
      ]

  expire_all-IsSafe :
      (dispatch_email : OrderRows.Db → String → String → OrderRows.Db) (now : ℕ) (rs : List Return)
      (db : Db)
      → IsSafe db
      → IsSafe (expire_all dispatch_email now rs db)
  unfolding expire_all expire_return
  expire_all-IsSafe dispatch_email now [] db h = h
  expire_all-IsSafe dispatch_email now (r ∷ rs) db h =
      expire_all-IsSafe dispatch_email now rs (expire_return dispatch_email now r db)
        (set_status-IsSafe r.id return_status_cancelled none db h)

  mark_return-IsSafe :
      (status : String) (notes : Option String) (return_id : ℕ) (db : Db)
      → IsSafe db
      → IsSafe (mark_return status notes return_id db).0
  unfolding mark_return
  mark_return-IsSafe status notes return_id db h =
      elim (Option-cases (find_first (has_return_id return_id) db.returns)) [
        | inl e ↦ rw (e, mark_return) h
        | inr (r, e) ↦ elim (Bool-cases (str_eq r.status status)) [
          | inl t ↦ rw (e, t, mark_return) h
          | inr u ↦ rw (e, u, mark_return) (set_status-IsSafe r.id status notes db h)
        ]
      ]

  module _ (loads : String → Option (List ReturnItem)) (sends accept : Bool) where
    finish_restore-IsSafe :
        (r : Return) (status : String) (db : Db) (l : List RestoredItem)
        → IsSafe db
        → IsSafe (finish_restore sends r status (db, l)).0
    unfolding finish_restore add_return_status_log
    finish_restore-IsSafe r status db [] h = h
    finish_restore-IsSafe r status db (x ∷ xs) h =
        let h' =
          update-IsRefunded (has_return_id r.id) (λ x. record x { stock_restored = true }) order_id
            db.returns (λ x. refl) (λ x e. e) h in
        elim (Bool-cases sends) [ inl t ↦ rw t h' | inr u ↦ rw u h' ]

    restore_loaded-IsSafe :
        (r : Return) (status : String) (db db' : Db) (o : Option (List ReturnItem))
        → IsSafe db
        → IsSafe db'
        → IsSafe (restore_loaded sends r status db db' o).0
    unfolding restore_loaded
    restore_loaded-IsSafe r status db db' none h h' = h
    restore_loaded-IsSafe r status db db' (some items) h h' =
        let rest = restore_items r.order_id items db' in
        finish_restore-IsSafe r status rest.0 rest.1
          (rw (restore_items-returns r.order_id items db') h')

    accept_return-IsSafe : (r : Return) (db : Db) → IsSafe db → IsSafe (accept_return accept r db)
    unfolding accept_return
    accept_return-IsSafe r db h = elim (Bool-cases (accept && is_waiting r.status)) [
      | inl t ↦ rw t (set_status-IsSafe r.id return_status_delivered none db h)
      | inr u ↦ rw u h
    ]

    restore_found-IsSafe :
        (r : Return) (db : Db) → IsSafe db → IsSafe (restore_found loads sends accept r db).0
    restore_found-IsSafe r db h =
        let h' = accept_return-IsSafe r db h in
        elim (Bool-cases r.stock_restored) [
          | inl again ↦ rw (restore_found-flagged loads sends accept r db again) h
          | inr fresh ↦ elim (Bool-cases (is_received (accepted_status accept r))) [
            | inl t ↦ rw (restore_found-loaded loads sends accept r db fresh t) (
                restore_loaded-IsSafe r (accepted_status accept r) db (accept_return accept r db)
                  (load_items loads r.items_json) h h')
            | inr u ↦ rw (restore_found-refused loads sends accept r db fresh u) h'
          ]
        ]

    restore_stock_for_return-IsSafe :
        (return_id : ℕ) (db : Db)
        → IsSafe db
        → IsSafe (restore_stock_for_return loads sends accept return_id db).0
    restore_stock_for_return-IsSafe return_id db h =
        elim (Option-cases (find_first (has_return_id return_id) db.returns)) [
          | inl e ↦ rw (restore-missing loads sends accept return_id db e) h
          | inr (r, e) ↦
              rw (restore-found loads sends accept r return_id db e) (restore_found-IsSafe r db h)
        ]

  process_each-IsSafe :
      (restore_stock : ℕ → Db → Db × Bool) (rs : List Return) (stats : Stats) (db : Db)
      → ((return_id : ℕ) (d : Db) → IsSafe d → IsSafe (restore_stock return_id d).0)
      → IsSafe db
      → IsSafe (process_each restore_stock rs stats db).0
  unfolding process_each
  process_each-IsSafe restore_stock [] stats db keeps h = h
  process_each-IsSafe restore_stock (r ∷ rs) stats db keeps h =
      process_each-IsSafe restore_stock rs _ (restore_stock r.id db).0 keeps (keeps r.id db h)

  pub step-IsRefunded : (db db' : Db) → ReturnStep db db' → IsSafe db → IsSafe db'
  unfolding expire_stale_returns process_delivered_returns mark_return_as_delivered
      mark_return_as_not_collected
  step-IsRefunded db _ (creates dumps summary customer_name id now q new) h =
      create_return_from_order-IsSafe dumps summary customer_name id now q db h
  step-IsRefunded db _ (expires dispatch_email now) h =
      expire_all-IsSafe dispatch_email now (select (is_stale now) db.returns) db h
  step-IsRefunded db _ (delivers return_id) h = mark_return-IsSafe _ _ return_id db h
  step-IsRefunded db _ (stays notes return_id) h = mark_return-IsSafe _ _ return_id db h
  step-IsRefunded db _ (restores loads sends accept return_id) h =
      restore_stock_for_return-IsSafe loads sends accept return_id db h
  step-IsRefunded db _ (processes loads sends) h =
      process_each-IsSafe (restore_stock_for_return loads sends false)
        (select is_delivered db.returns) _ db (restore_stock_for_return-IsSafe loads sends false) h
