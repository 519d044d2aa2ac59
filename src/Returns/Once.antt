-- ===== src/Returns/Once.antt =====
-- That a return goes back into stock once (restore_stock_for_return of
-- magazyn/services/return_stock.py).
use retrievershop_suite.Prelude.{
  ℕ, ◌≡◌, refl, sym, subst, ◌⊎◌, String, Option, some, List, Bool, true, false, inl, inr,
  Option-cases, find_first,
}
use retrievershop_suite.Returns.Rows.{Return, ReturnItem, Db, has_return_id}
use retrievershop_suite.Returns.Restock.{
  is_received, accept_return, accepted_status, restore_found, restore_stock_for_return,
}
use retrievershop_suite.Returns.Branches.{
  restore-found, restore_found-flagged, restore-missing, found-id,
}
use retrievershop_suite.Returns.Calls.{
  accept_return-found, accept_return-stock, came, unchanged, only_accepted, flagged,
}

module _ (loads : String → Option (List ReturnItem)) (accept : Bool) where
  once_of :
      (sends again : Bool) (r : Return) (db : Db)
      → find_first (has_return_id r.id) db.returns ≡ some r
      → (restore_stock_for_return loads again accept r.id
          (restore_stock_for_return loads sends accept r.id db).0).0
        ≡ (restore_stock_for_return loads sends accept r.id db).0
  once_of sends again r db e =
      let first = restore-found loads sends accept r r.id db e in
      rw first (elim (came loads sends accept r db e) [
        | unchanged same later ↦
            rw same (rw (restore-found loads again accept r r.id db e) (later again))
        | only_accepted same later ↦ rw same (
            rw
              (restore-found loads again accept (record r { status = accepted_status accept r })
                r.id (accept_return accept r db) (accept_return-found loads sends accept r db e))
              (later again))
        | flagged r' found' flag fresh ok ↦
            rw
              (restore-found loads again accept r' r.id (restore_found loads sends accept r db).0
                found')
              (rw
                (restore_found-flagged loads again accept r'
                  (restore_found loads sends accept r db).0 flag)
                refl)
      ])

  -- A second call of `restore_stock_for_return` for a return, with the same permission to accept it as
  -- delivered, changes no table and sends no message, however the first call ended and whether or not
  -- its message could be sent.
  pub restore_stock_for_return_once :
      (sends again : Bool) (return_id : ℕ) (db : Db)
      → (restore_stock_for_return loads again accept return_id
          (restore_stock_for_return loads sends accept return_id db).0).0
        ≡ (restore_stock_for_return loads sends accept return_id db).0
  restore_stock_for_return_once sends again return_id db =
      elim (Option-cases (find_first (has_return_id return_id) db.returns)) [
        | inl e ↦
            rw (restore-missing loads sends accept return_id db e)
              (rw (restore-missing loads again accept return_id db e) refl)
        | inr (r, e) ↦
            let same = found-id return_id r db e in
            subst
              (λ (k : ℕ).
                (restore_stock_for_return loads again accept k
                  (restore_stock_for_return loads sends accept k db).0).0
                ≡ (restore_stock_for_return loads sends accept k db).0)
              (sym same)
              (once_of sends again r db
                (subst (λ (k : ℕ). find_first (has_return_id k) db.returns ≡ some r) same e))
      ]

  -- The pieces of a return go to stock only with its flag: after a call of
  -- `restore_stock_for_return` the stock tables are as before, or the return, which was not flagged
  -- and is received (or was accepted as received), is found flagged.
  pub restore_stock_for_return_gate :
      (sends : Bool) (return_id : ℕ) (db : Db)
      → let after = (restore_stock_for_return loads sends accept return_id db).0 in
        after.stock ≡ db.stock
        ⊎ ((r : Return) × ((r' : Return) × (find_first (has_return_id return_id) db.returns
                ≡ some r)
              × (find_first (has_return_id return_id) after.returns ≡ some r')
              × (r'.stock_restored ≡ true)
              × (r.stock_restored ≡ false)
              × (is_received (accepted_status accept r) ≡ true)))
  restore_stock_for_return_gate sends return_id db =
      elim (Option-cases (find_first (has_return_id return_id) db.returns)) [
        | inl e ↦ inl (rw (restore-missing loads sends accept return_id db e) refl)
        | inr (r, e) ↦
            let same = found-id return_id r db e in
            let e' = subst (λ (k : ℕ). find_first (has_return_id k) db.returns ≡ some r) same e in
            let run = restore-found loads sends accept r return_id db e in
            elim (came loads sends accept r db e') [
              | unchanged q later ↦ inl (rw (run, q) refl)
              | only_accepted q later ↦
                  inl (rw (run, q) (accept_return-stock loads sends accept r db e'))
              | flagged r' found' flag fresh ok ↦ inr (
                r,
                (
                  r',
                  e,
                  rw run (
                      subst
                        (λ (k : ℕ).
                          find_first (has_return_id k)
                            (restore_found loads sends accept r db).0.returns
                          ≡ some r')
                        (sym same) found'),
                  flag,
                  fresh,
                  ok,
                ),
              )
            ]
      ]

-- Of two calls of `restore_stock_for_return` for a return, whatever each may accept as delivered and
-- whether or not its message could be sent: the first leaves the stock as it was, or the second
-- changes no table and sends no message.
pub restore_stock_for_return_stocks_once :
    (loads : String → Option (List ReturnItem)) (accept accept' sends again : Bool) (return_id : ℕ)
    (db : Db)
    → let after = (restore_stock_for_return loads sends accept return_id db).0 in
      after.stock ≡ db.stock
      ⊎ ((restore_stock_for_return loads again accept' return_id after).0 ≡ after)
restore_stock_for_return_stocks_once loads accept accept' sends again return_id db =
    let after = (restore_stock_for_return loads sends accept return_id db).0 in
    elim (restore_stock_for_return_gate loads accept sends return_id db) [
      | inl same ↦ inl same
      | inr (r, (r', found, found', flag, fresh, ok)) ↦ inr (second_same after r' found' flag)
    ]
  where
    second_same :
        (after : Db) (r' : Return)
        → find_first (has_return_id return_id) after.returns ≡ some r'
        → r'.stock_restored ≡ true
        → (restore_stock_for_return loads again accept' return_id after).0 ≡ after
    second_same after r' found flag =
        rw (restore-found loads again accept' r' return_id after found)
          (rw (restore_found-flagged loads again accept' r' after flag) refl)
