-- ===== src/Returns/Branches.antt =====
-- The branches of restore_stock_for_return (magazyn/services/return_stock.py), one equation each.
use retrievershop_suite.Prelude.{
  ℕ, ◌≡◌, ◌≢◌, refl, ap, String, Option, none, some, List, [], ◌∷◌, Bool, true, false, ◌&&◌, inl,
  inr, Bool-cases, Option-cases, find_first, find_first-update_where, find_first_test, ◌==◌, arith,
}
use retrievershop_suite.Returns.Rows.{
  Return, ReturnItem, RestoredItem, Db, has_return_id, put_return, return_status_delivered,
}
use retrievershop_suite.Returns.Core.{add_return_status_log}
use retrievershop_suite.Returns.Restock.{
  restock, restore_items, find_product_size_for_return_item, is_waiting, is_received, accept_return,
  accepted_status, load_items, finish_restore, restore_loaded, restore_found,
  restore_stock_for_return,
}

pub cons_nil : (x : RestoredItem) (xs : List RestoredItem) → (x ∷ xs) ≢ []
cons_nil x xs e = cc

pub restore_items-returns :
    (order_id : String) (items : List ReturnItem) (db : Db)
    → (restore_items order_id items db).0.returns ≡ db.returns
unfolding restore_items restock
restore_items-returns order_id [] db = refl
restore_items-returns order_id (item ∷ items) db =
    elim (Option-cases (find_product_size_for_return_item db order_id item)) [
      | inl e ↦ rw (e, restore_items) (restore_items-returns order_id items db)
      | inr (ps, e) ↦ rw (e, restore_items) (restore_items-returns order_id items _)
    ]

pub restore_items-return_logs :
    (order_id : String) (items : List ReturnItem) (db : Db)
    → (restore_items order_id items db).0.return_logs ≡ db.return_logs
unfolding restore_items restock
restore_items-return_logs order_id [] db = refl
restore_items-return_logs order_id (item ∷ items) db =
    elim (Option-cases (find_product_size_for_return_item db order_id item)) [
      | inl e ↦ rw (e, restore_items) (restore_items-return_logs order_id items db)
      | inr (ps, e) ↦ rw (e, restore_items) (restore_items-return_logs order_id items _)
    ]

-- Where nothing is put back, nothing changes.
pub restore_items-nothing :
    (order_id : String) (items : List ReturnItem) (db : Db)
    → (restore_items order_id items db).1 ≡ []
    → restore_items order_id items db ≡ (db, [])
unfolding restore_items
restore_items-nothing order_id [] db h = refl
restore_items-nothing order_id (item ∷ items) db h =
    elim (Option-cases (find_product_size_for_return_item db order_id item)) [
      | inl e ↦
          rw (e, restore_items)
            (restore_items-nothing order_id items db (rw (e, restore_items) at h))
      | inr (ps, e) ↦ absurd (cons_nil _ _ (rw (e, restore_items) at h))
    ]

module _ (loads : String → Option (List ReturnItem)) (sends accept : Bool) where
  pub restore-found :
      (r : Return) (return_id : ℕ) (db : Db)
      → find_first (has_return_id return_id) db.returns ≡ some r
      → restore_stock_for_return loads sends accept return_id db
        ≡ restore_found loads sends accept r db
  unfolding restore_stock_for_return
  restore-found r return_id db e = rw (e, restore_stock_for_return) refl

  pub restore_found-flagged :
      (r : Return) (db : Db)
      → r.stock_restored ≡ true
      → restore_found loads sends accept r db ≡ (db, true)
  unfolding restore_found
  restore_found-flagged r db e = rw e refl

  pub restore_found-refused :
      (r : Return) (db : Db)
      → r.stock_restored ≡ false
      → is_received (accepted_status accept r) ≡ false
      → restore_found loads sends accept r db ≡ (accept_return accept r db, false)
  unfolding restore_found
  restore_found-refused r db e u = rw (e, u) refl

  pub restore_found-loaded :
      (r : Return) (db : Db)
      → r.stock_restored ≡ false
      → is_received (accepted_status accept r) ≡ true
      → restore_found loads sends accept r db
        ≡ restore_loaded sends r
            (accepted_status accept r)
            db
            (accept_return accept r db)
            (load_items loads r.items_json)
  unfolding restore_found
  restore_found-loaded r db e t = rw (e, t) refl

  -- Nothing to accept.
  pub as_it_is :
      (r : Return) (db : Db)
      → (accept && is_waiting r.status) ≡ false
      → (accept_return accept r db ≡ db) × (accepted_status accept r ≡ r.status)
  unfolding accept_return accepted_status
  as_it_is r db e = (rw e refl, rw e refl)

  -- A return that is not found has nothing to restore.
  pub restore-missing :
      (return_id : ℕ) (db : Db)
      → find_first (has_return_id return_id) db.returns ≡ none
      → restore_stock_for_return loads sends accept return_id db ≡ (db, false)
  unfolding restore_stock_for_return
  restore-missing return_id db e = rw (e, restore_stock_for_return) refl

-- What is found after an assignment to the return that was found before.
pub found-put :
    (r : Return) (f : Return → Return) (db : Db)
    → ((x : Return) → (f x).id ≡ x.id)
    → find_first (has_return_id r.id) db.returns ≡ some r
    → find_first (has_return_id r.id) (put_return r.id f db).returns ≡ some (f r)
found-put r f db keep e =
    find_first-update_where (has_return_id r.id) f db.returns r
      (λ x. ap (λ (n : ℕ). n == r.id) (keep x)) e

-- The tables after a call that restored something: the return is found flagged.
pub finish_restore-flags :
    (sends : Bool) (r r' : Return) (status : String) (db : Db) (x : RestoredItem)
    (xs : List RestoredItem)
    → find_first (has_return_id r.id) db.returns ≡ some r'
    → r'.id ≡ r.id
    → find_first (has_return_id r.id) (finish_restore sends r status (db, x ∷ xs)).0.returns
      ≡ some (record r' { stock_restored = true })
unfolding finish_restore add_return_status_log
finish_restore-flags sends r r' status db x xs e same = elim (Bool-cases sends) [
  | inl t ↦ rw t found
  | inr u ↦ rw u found
]
  where
    found :
        find_first
          (has_return_id r.id)
          (put_return r.id (λ x. record x { stock_restored = true }) db).returns
        ≡ some (record r' { stock_restored = true })
    found =
        find_first-update_where (has_return_id r.id) (λ x. record x { stock_restored = true })
          db.returns r' (λ x. refl) e

pub pair_with : (p : Db × List RestoredItem) (l : List RestoredItem) → p.1 ≡ l → p ≡ (p.0, l)
pair_with p l e = λ i. (p.0, e i)

pub loaded_none :
    (s : Bool) (r : Return) (status : String) (before db : Db)
    → (restore_loaded s r status before db none).0 ≡ before
unfolding restore_loaded
loaded_none s r status before db = refl

pub loaded_some :
    (s : Bool) (r : Return) (status : String) (before db : Db) (items : List ReturnItem)
    → restore_loaded s r status before db (some items)
      ≡ finish_restore s r status (restore_items r.order_id items db)
unfolding restore_loaded
loaded_some s r status before db items = refl

pub loaded_nothing :
    (s : Bool) (r : Return) (status : String) (before db : Db) (items : List ReturnItem)
    → (restore_items r.order_id items db).1 ≡ []
    → restore_loaded s r status before db (some items) ≡ (db, false)
unfolding restore_loaded finish_restore
loaded_nothing s r status before db items h =
    ap (finish_restore s r status) (restore_items-nothing r.order_id items db h)

pub delivered_waits_no_more : (b : Bool) → (b && is_waiting return_status_delivered) ≡ false
delivered_waits_no_more true = refl
delivered_waits_no_more false = refl

-- The id of a return that is found is the one asked for.
pub found-id :
    (return_id : ℕ) (r : Return) (db : Db)
    → find_first (has_return_id return_id) db.returns ≡ some r
    → return_id ≡ r.id
found-id return_id r db e =
    let h = find_first_test (has_return_id return_id) db.returns r e in ground arith
