-- ===== src/Stocktake/Active.antt =====
-- What every request of a stocktake keeps, and applying it once (magazyn/blueprints/stocktake.py).
use retrievershop_suite.Prelude.{
  ℕ, ◌+◌, ◌≤◌, ◌≡◌, refl, arith, Option, none, some, List, [], ◌∷◌, ◌++◌, Bool, true, false, inl,
  inr, Bool-cases, Option-cases, if◌then◌else◌, length, select, find_first, update_first,
}
use retrievershop_suite.Stock.Consistent.{IsConsistent}
use retrievershop_suite.Stocktake.Session.{Db, is_in_progress, stocktake_new}

module _ {A : Type 0} (p : A → Bool) where
  select-append :
      (xs ys : List A) → length (select p (xs ++ ys)) ≡ length (select p xs) + length (select p ys)
  select-append [] ys = omega arith
  select-append (x ∷ xs) ys = elim (Bool-cases (p x)) [
    | inl t ↦ rw t (omega (arith, select-append xs ys))
    | inr u ↦ rw u (select-append xs ys)
  ]

  select-none : (xs : List A) → find_first p xs ≡ none → length (select p xs) ≡ 0
  select-none [] e = refl
  select-none (x ∷ xs) e = elim (Bool-cases (p x)) [
    | inl t ↦ let q : some x ≡ none = rw t at e in cc
    | inr u ↦ rw u (select-none xs (rw u at e))
  ]

  -- A rewrite to rows that fail the test leaves no more that pass it.
  pub select-update_first :
      (q : A → Bool) (f : A → A) (xs : List A)
      → ((x : A) → p (f x) ≡ false)
      → length (select p (update_first q f xs)) ≤ length (select p xs)
  select-update_first q f [] h = omega arith
  select-update_first q f (x ∷ xs) h = elim (Bool-cases (q x)) [
    | inl t ↦ rw (t, h x) (more (p x) (select p xs) x)
    | inr u ↦
        rw u (
          both (p x) x (select p (update_first q f xs)) (select p xs)
            (select-update_first q f xs h))
  ]
    where
      more : (b : Bool) (ys : List A) (y : A) → length ys ≤ length (if b then y ∷ ys else ys)
      more true ys y = omega arith
      more false ys y = omega arith

      both :
          (b : Bool) (y : A) (ys zs : List A)
          → length ys ≤ length zs
          → length (if b then y ∷ ys else ys) ≤ length (if b then y ∷ zs else zs)
      both true y ys zs g = omega (arith, g)
      both false y ys zs g = g

abbrev pub open_sessions : Db → ℕ
open_sessions db = length (select is_in_progress db.stocktakes)

-- At most one session is in progress, and the stock is consistent.
pub record IsSound (db : Db) : Type 0 where
  pub one_open : open_sessions db ≤ 1
  pub consistent : IsConsistent db.stock

pub stocktake_new-IsSound :
    (id : ℕ) (user_id : Option ℕ) (db : Db) → IsSound db → IsSound (stocktake_new id user_id db)
unfolding stocktake_new
stocktake_new-IsSound id user_id db h =
    elim (Option-cases (find_first is_in_progress db.stocktakes)) [
      | inr (st, e) ↦ rw (e, stocktake_new) h
      | inl e ↦
          rw (e, stocktake_new)
            (record {
              one_open = omega (
                arith,
                select-append is_in_progress db.stocktakes _,
                select-none is_in_progress db.stocktakes e,
              );
              consistent = h.consistent;
            })
    ]
