-- ===== src/Returns/Calls.antt =====
-- What one call of restore_stock_for_return comes to (magazyn/services/return_stock.py).
use retrievershop_suite.Prelude.{
  ◌≡◌, refl, sym, ap, subst, String, Option, none, some, List, [], ◌∷◌, Bool, true, false, ◌&&◌,
  inl, inr, Bool-cases, find_first,
}
use retrievershop_suite.Returns.Rows.{
  Return, ReturnItem, RestoredItem, Db, has_return_id, return_status_delivered,
}
use retrievershop_suite.Returns.Core.{add_return_status_log, set_status}
use retrievershop_suite.Returns.Restock.{
  restore_items, is_waiting, is_received, accept_return, accepted_status, load_items,
  finish_restore, restore_found,
}
use retrievershop_suite.Returns.Branches.{
  restore_items-returns, restore_found-flagged, restore_found-refused, restore_found-loaded,
  as_it_is, found-put, finish_restore-flags, pair_with, loaded_none, loaded_some, loaded_nothing,
  delivered_waits_no_more,
}

-- What one call does to a return that is found: it leaves all tables, but for the acceptance of
-- the return, or it flags the return.
module _ (loads : String → Option (List ReturnItem)) (sends accept : Bool) (r : Return) (db : Db)
    (found : find_first (has_return_id r.id) db.returns ≡ some r) where
  -- The return after it may have been accepted.
  abbrev pub accepted : Return
  accepted = record r { status = accepted_status accept r }

  pub accept_return-found :
      find_first (has_return_id r.id) (accept_return accept r db).returns ≡ some accepted
  unfolding accept_return accepted_status set_status add_return_status_log
  accept_return-found = elim (Bool-cases (accept && is_waiting r.status)) [
    | inl t ↦
        rw t (found-put r (λ x. record x { status = return_status_delivered }) db (λ x. refl) found)
    | inr u ↦ rw u found
  ]

  pub accept_return-stock : (accept_return accept r db).stock ≡ db.stock
  unfolding accept_return set_status add_return_status_log
  accept_return-stock = elim (Bool-cases (accept && is_waiting r.status)) [
    | inl t ↦ rw t refl
    | inr u ↦ rw u refl
  ]

  -- Accepted once, a return has nothing more to accept.
  pub accepted_waits_no_more : (accept && is_waiting (accepted_status accept r)) ≡ false
  unfolding accepted_status
  accepted_waits_no_more = elim (Bool-cases (accept && is_waiting r.status)) [
    | inl t ↦ rw t (delivered_waits_no_more accept)
    | inr u ↦ rw u u
  ]

  -- What a call comes to: nothing but the acceptance of the return, and the same when it is called
  -- again; or the return is flagged.
  pub data Came : Type 0 where
    unchanged :
        (restore_found loads sends accept r db).0 ≡ db
        → ((s : Bool) → (restore_found loads s accept r db).0 ≡ db)
        → Came
    only_accepted :
        (restore_found loads sends accept r db).0 ≡ accept_return accept r db
        → ((s : Bool)
            → (restore_found loads s accept accepted (accept_return accept r db)).0
              ≡ accept_return accept r db)
        → Came
    flagged :
        (r' : Return)
        → find_first (has_return_id r.id) (restore_found loads sends accept r db).0.returns
          ≡ some r'
        → r'.stock_restored ≡ true
        → r.stock_restored ≡ false
        → is_received (accepted_status accept r) ≡ true
        → Came

  pub nothing_found :
      (s : Bool) (items : List ReturnItem)
      → r.stock_restored ≡ false
      → is_received (accepted_status accept r) ≡ true
      → load_items loads r.items_json ≡ some items
      → (restore_items r.order_id items (accept_return accept r db)).1 ≡ []
      → (restore_found loads s accept accepted (accept_return accept r db)).0
        ≡ accept_return accept r db
  nothing_found s items fresh t e none_back =
      let db' = accept_return accept r db in
      let (same, status) = as_it_is loads s accept accepted db' accepted_waits_no_more in
      rw (restore_found-loaded loads s accept accepted db' fresh (rw status t)) (
        rw (same, e)
          (ap (λ (x : Db × Bool). x.0) (loaded_nothing s accepted _ db' db' items none_back)))

  -- A return that is refused was not accepted.
  pub refused_waits :
      r.stock_restored ≡ false
      → is_received (accepted_status accept r) ≡ false
      → accept_return accept r db ≡ db
  unfolding accept_return accepted_status
  refused_waits fresh u = elim (Bool-cases (accept && is_waiting r.status)) [
    | inl t ↦ let q : true ≡ false = rw t at u in cc
    | inr v ↦ rw v refl
  ]

  pub came_of_items :
      (o : Option (List ReturnItem))
      → r.stock_restored ≡ false
      → is_received (accepted_status accept r) ≡ true
      → load_items loads r.items_json ≡ o
      → Came
  came_of_items none fresh t e =
      let same : (s : Bool) → (restore_found loads s accept r db).0 ≡ db =
        λ s. rw (restore_found-loaded loads s accept r db fresh t, e) (loaded_none s r _ db _) in
      unchanged (same sends) same
  came_of_items (some items) fresh t e = came_of_rest rest.1 refl
    where
      db' : Db
      db' = accept_return accept r db

      rest : Db × List RestoredItem
      rest = restore_items r.order_id items db'

      came_of_rest : (l : List RestoredItem) → rest.1 ≡ l → Came
      came_of_rest [] h =
          only_accepted
            (rw (restore_found-loaded loads sends accept r db fresh t, e)
              (ap (λ (x : Db × Bool). x.0) (loaded_nothing sends r _ db db' items h)))
            (λ s. nothing_found s items fresh t e h)
      came_of_rest (x ∷ xs) h =
          flagged (record accepted { stock_restored = true })
            (rw
              (
                restore_found-loaded loads sends accept r db fresh t,
                e,
                loaded_some sends r (accepted_status accept r) db db' items,
              )
              (subst
                (λ q.
                  find_first (has_return_id r.id)
                    (finish_restore sends r (accepted_status accept r) q).0.returns
                  ≡ some (record accepted { stock_restored = true }))
                (sym (pair_with rest (x ∷ xs) h))
                (finish_restore-flags sends r accepted (accepted_status accept r) rest.0 x xs
                  (rw (restore_items-returns r.order_id items db') accept_return-found) refl)))
            refl fresh t

  pub came : Came
  came = elim (Bool-cases r.stock_restored) [
    | inl again ↦
        let same : (s : Bool) → (restore_found loads s accept r db).0 ≡ db =
          λ s. rw (restore_found-flagged loads s accept r db again) refl in
        unchanged (same sends) same
    | inr fresh ↦ elim (Bool-cases (is_received (accepted_status accept r))) [
      | inl t ↦ came_of_items (load_items loads r.items_json) fresh t refl
      | inr u ↦
          let same : (s : Bool) → (restore_found loads s accept r db).0 ≡ db =
            λ s. rw (restore_found-refused loads s accept r db fresh u) (refused_waits fresh u) in
          unchanged (same sends) same
    ]
  ]
