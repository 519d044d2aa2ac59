-- ===== src/Returns/Tracked.antt =====
-- That the log of statuses follows the returns (magazyn/services/return_core.py, return_stock.py).
use retrievershop_suite.Prelude.{
  ℕ, ◌≡◌, refl, sym, ap, subst, ◌∙◌, String, Option, some, List, [], ◌∷◌, Bool, true, false, inl,
  inr, Bool-cases, find_first, update_where, ◌==◌, arith, All,
}
use retrievershop_suite.Returns.Rows.{Return, ReturnStatusLog, Db, has_return_id}
use retrievershop_suite.Returns.Core.{add_return_status_log, set_status}

abbrev pub is_log_of : ℕ → ReturnStatusLog → Bool
is_log_of return_id l = l.return_id == return_id

-- The last row of the log of a return holds its status.
pub record IsTracked (logs : List ReturnStatusLog) (r : Return) : Type 0 where
  pub last : ReturnStatusLog
  pub found : find_first (is_log_of r.id) logs ≡ some last
  pub agrees : last.status ≡ r.status

unfoldable pub AreTracked : Db → Type 0
AreTracked db = All (IsTracked db.return_logs) db.returns

same_or_not : (a b : ℕ) → ((a == b) ≡ true) → a ≡ b
same_or_not a b h = ground arith

-- A row of the log that is not of the return does not count.
pub other_log :
    (l : ReturnStatusLog) (logs : List ReturnStatusLog) (r : Return)
    → is_log_of r.id l ≡ false
    → IsTracked logs r
    → IsTracked (l ∷ logs) r
other_log l logs r u t = record { last = t.last; found = rw u t.found; agrees = t.agrees }

pub own_log :
    (l : ReturnStatusLog) (logs : List ReturnStatusLog) (r : Return)
    → is_log_of r.id l ≡ true
    → l.status ≡ r.status
    → IsTracked (l ∷ logs) r
own_log l logs r t e = record { last = l; found = rw t refl; agrees = e }

flip : (a b : ℕ) (c : Bool) → (a == b) ≡ c → (b == a) ≡ c
flip a b true h = ground arith
flip a b false h = ground arith

-- A status set with its row in the log.
set_status-all :
    (l : ReturnStatusLog) (logs : List ReturnStatusLog) (rows : List Return)
    → All (IsTracked logs) rows
    → All
        (IsTracked (l ∷ logs))
        (update_where (has_return_id l.return_id) (λ r. record r { status = l.status }) rows)
set_status-all l logs [] h = tt
set_status-all l logs (r ∷ rows) h = elim (Bool-cases (has_return_id l.return_id r)) [
  | inl t ↦ rw t (
    own_log l logs (record r { status = l.status }) (flip r.id l.return_id true t) refl,
    set_status-all l logs rows h.1,
  )
  | inr u ↦
      rw u (other_log l logs r (flip r.id l.return_id false u) h.0, set_status-all l logs rows h.1)
]

pub set_status-AreTracked :
    (return_id : ℕ) (status : String) (notes : Option String) (db : Db)
    → AreTracked db
    → AreTracked (set_status return_id status notes db)
unfolding AreTracked set_status add_return_status_log
set_status-AreTracked return_id status notes db h =
    set_status-all (record { return_id = return_id; status = status; notes = notes }) db.return_logs
      db.returns h

-- Columns other than the id and the status.
pub put-all :
    (f : Return → Return) (return_id : ℕ) (logs : List ReturnStatusLog) (rows : List Return)
    → ((r : Return) → (f r).id ≡ r.id)
    → ((r : Return) → (f r).status ≡ r.status)
    → All (IsTracked logs) rows
    → All (IsTracked logs) (update_where (has_return_id return_id) f rows)
put-all f return_id logs [] id status h = tt
put-all f return_id logs (r ∷ rows) id status h = elim (Bool-cases (has_return_id return_id r)) [
  | inl t ↦ rw t (
    record { last = h.0.last; found = rw (id r) h.0.found; agrees = h.0.agrees ∙ sym (status r) },
    put-all f return_id logs rows id status h.1,
  )
  | inr u ↦ rw u (h.0, put-all f return_id logs rows id status h.1)
]

-- A row of the log that repeats the last status of the return.
pub repeat-all :
    (l last : ReturnStatusLog) (logs : List ReturnStatusLog) (rows : List Return)
    → find_first (is_log_of l.return_id) logs ≡ some last
    → last.status ≡ l.status
    → All (IsTracked logs) rows
    → All (IsTracked (l ∷ logs)) rows
repeat-all l last logs [] e same h = tt
repeat-all l last logs (r ∷ rows) e same h = elim (Bool-cases (l.return_id == r.id)) [
  | inl t ↦
      let q = same_or_not l.return_id r.id t in
      let e' : some h.0.last ≡ some last =
        sym h.0.found ∙ subst (λ (k : ℕ). find_first (is_log_of k) logs ≡ some last) q e in
      let e'' : h.0.last ≡ last = cc in
      (
        own_log l logs r t
            (sym same ∙ ap (λ (x : ReturnStatusLog). x.status) (sym e'') ∙ h.0.agrees),
        repeat-all l last logs rows e same h.1,
      )
  | inr u ↦ (other_log l logs r u h.0, repeat-all l last logs rows e same h.1)
]
