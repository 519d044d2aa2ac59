-- ===== src/Refund/Reaches.antt =====
-- What check_refund_eligibility offers, process_refund carries out
-- (magazyn/services/return_refunds.py).
use retrievershop_suite.Prelude.{
  ◌≡◌, refl, sym, ap, ◌∙◌, String, Option, none, some, List, [], ◌∷◌, Bool, true, false, not, ◌&&◌,
  ◌||◌, ◌⊎◌, inl, inr, Bool-cases, if◌then◌else◌, is_truthy, get_or,
}
use retrievershop_suite.Returns.Rows.{Return, Db}
use retrievershop_suite.Refund.Rows.{
  RefundOrder, RefundOutside, AllegroRefund, Answer, failed, answered, MoneyCall, is_woo_return,
  is_manual_return, woo_refund_amount,
}
use retrievershop_suite.Refund.Process.{
  is_stock_restored_refund_override, check_cod_settlement, resolve_return_items,
  build_refund_execution, fetch_return, process_woo_refund, finish_refund, refund_items,
  refund_fetched, process_allegro_refund, or_default,
}
use retrievershop_suite.Refund.Eligible.{
  is_answered, answer_data, fetch_allegro_return_data, partial_details, refund_details_of,
  build_refund_eligibility_details, found_or_again, validated, allegro_eligible,
}

abbrev pub has_calls : List MoneyCall → Bool
has_calls [] = false
has_calls (_ ∷ _) = true

-- The two ways to be eligible: without the data of Allegro, or with them.
abbrev Settles : Bool → Bool → Bool → Bool → Type 0
Settles m i b v = ((m ≡ true) × (b ≡ true)) ⊎ ((m ≡ false) × (i ≡ true) × (v ≡ true))

chain-Settles :
    (t p m i b v : Bool)
    → (if not t then false else if p then false else if m then b else if not i then false else v)
      ≡ true
    → (t ≡ true) × (p ≡ false) × Settles m i b v
chain-Settles false p m i b v e = cc
chain-Settles true true m i b v e = cc
chain-Settles true false true i b v e = (refl, refl, inl (refl, e))
chain-Settles true false false true b v e = (refl, refl, inr (refl, refl, e))
chain-Settles true false false false b v e = cc

module _ (out : RefundOutside) (reason : Option String) (order : RefundOrder) (r : Return) (db : Db)
    (external_id : String) where
  finish_refund-calls :
      (q : AllegroRefund) (result : Bool × String)
      → has_calls (finish_refund out false reason order r q db result).1 ≡ true
  unfolding finish_refund
  finish_refund-calls q (true, message) = refl
  finish_refund-calls q (false, message) = refl

  refund_items-calls :
      (line_items : Option String)
      → has_calls (refund_items out false reason order r external_id db (some line_items)).1 ≡ true
  unfolding refund_items
  refund_items-calls line_items = finish_refund-calls _ _

  pub process_woo_refund-calls :
      (order.is_cod || order.is_woo_cod) ≡ false
      → has_calls (process_woo_refund out false reason order r external_id db).1 ≡ true
  unfolding process_woo_refund
  process_woo_refund-calls online =
      elim (Bool-cases (
        out.create_order_refund external_id (woo_refund_amount out order r false)
          (get_or (or_default reason "Zwrot produktow (Woo)") ""))) [
            | inl t ↦ rw (online, t) refl
            | inr u ↦ rw (online, u) refl
          ]

  -- The items that pass the check are those of the refund.
  execution_answers :
      (found o : Option String) (a b : Answer) (items checkout : String)
      → resolve_return_items out r found ≡ o
      → out.get_checkout_form external_id ≡ a
      → o ≡ some items
      → a ≡ answered checkout
      → out.build_partial_refund_details items checkout false ≡ b
      → is_answered b ≡ true
      → (line_items : Option String) × (build_refund_execution out false r external_id found
          ≡ some line_items)
  unfolding build_refund_execution
  execution_answers found o a (failed error) items checkout eo ea so sa eb e = cc
  execution_answers found o a (answered l) items checkout eo ea so sa eb e =
      (some l, rw (eo ∙ so, ea ∙ sa, eb, build_refund_execution) refl)

  build_refund_execution_answers :
      (found o : Option String) (a : Answer)
      → resolve_return_items out r found ≡ o
      → out.get_checkout_form external_id ≡ a
      → refund_details_of out r found a ≡ true
      → (line_items : Option String) × (build_refund_execution out false r external_id found
          ≡ some line_items)
  unfolding build_refund_execution refund_details_of
  build_refund_execution_answers found none a eo ea e = (none, rw (eo, build_refund_execution) refl)
  build_refund_execution_answers found (some items) (failed error) eo ea e = cc
  build_refund_execution_answers found (some items) (answered checkout) eo ea e =
      execution_answers found (some items) (answered checkout)
        (out.build_partial_refund_details items checkout false) items checkout eo ea refl refl refl
        (sym (ap (partial_details out checkout) eo) ∙ e)

  refund_fetched-calls :
      (found : Option String)
      → build_refund_eligibility_details out r external_id found ≡ true
      → has_calls (refund_fetched out false reason order r external_id db (some found)).1 ≡ true
  unfolding refund_fetched build_refund_eligibility_details
  refund_fetched-calls found e =
      let x =
        build_refund_execution_answers found (resolve_return_items out r found)
          (out.get_checkout_form external_id) refl refl e in
      ap (λ o. has_calls (refund_items out false reason order r external_id db o).1) x.1
      ∙ refund_items-calls x.0

  -- Of a return of another platform: it is manual, or it has an id.
  not_blocked :
      is_woo_return r ≡ false
      → (not (is_truthy r.allegro_return_id) && not (is_manual_return r)) ≡ false
  unfolding is_manual_return
  not_blocked other = rw other (by_test (is_truthy r.allegro_return_id))
    where
      by_test : (b : Bool) → (not b && not (not b)) ≡ false
      by_test true = refl
      by_test false = refl

  fetch_return-none :
      (is_manual_return r || is_stock_restored_refund_override r) ≡ true
      → fetch_return out r ≡ some none
  unfolding fetch_return is_manual_return
  fetch_return-none e =
      rw
        (by_test (is_woo_return r) (is_truthy r.allegro_return_id)
          (is_stock_restored_refund_override r) e)
        refl
    where
      by_test : (w b o : Bool) → ((not w && not b) || o) ≡ true → (not b || o) ≡ true
      by_test w true true h = refl
      by_test w false o h = refl
      by_test true true false h = cc
      by_test false true false h = cc

  fetch_return-found :
      (found : String)
      → is_truthy r.allegro_return_id ≡ true
      → (is_manual_return r || is_stock_restored_refund_override r) ≡ false
      → out.get_customer_return (get_or r.allegro_return_id "") ≡ answered found
      → fetch_return out r ≡ some (some found)
  unfolding fetch_return
  fetch_return-found found t n e =
      rw (t, by_test (is_manual_return r) (is_stock_restored_refund_override r) n, e) refl
    where
      by_test : (b o : Bool) → (b || o) ≡ false → o ≡ false
      by_test true o h = cc
      by_test false o h = h

  validated_found :
      (a : Answer)
      → out.get_customer_return (get_or r.allegro_return_id "") ≡ a
      → validated out r external_id (answer_data a) ≡ true
      → (found : String) × (out.get_customer_return (get_or r.allegro_return_id "")
          ≡ answered found)
        × (build_refund_eligibility_details out r external_id (some found) ≡ true)
  unfolding validated
  validated_found (failed error) e v = cc
  validated_found (answered found) e v = elim (Bool-cases (out.validate_return_for_refund found)) [
    | inl t ↦ (found, e, rw t at v)
    | inr u ↦ let q : false ≡ true = rw u at v in cc
  ]

  fetched_once :
      out.has_access_token ≡ true
      → is_truthy r.allegro_return_id ≡ true
      → found_or_again
          (fetch_allegro_return_data out r)
          (out.get_customer_return (get_or r.allegro_return_id ""))
        ≡ answer_data (out.get_customer_return (get_or r.allegro_return_id ""))
  unfolding fetch_allegro_return_data
  fetched_once t i = rw (t, i) (by_answer (out.get_customer_return (get_or r.allegro_return_id "")))
    where
      by_answer : (a : Answer) → found_or_again (answer_data a) a ≡ answer_data a
      by_answer (failed error) = refl
      by_answer (answered found) = refl

  fetched-calls :
      out.has_access_token ≡ true
      → Settles
          (is_manual_return r || is_stock_restored_refund_override r)
          (is_truthy r.allegro_return_id)
          (build_refund_eligibility_details out r external_id none)
          (validated out r external_id (
            found_or_again
              (fetch_allegro_return_data out r)
              (out.get_customer_return (get_or r.allegro_return_id ""))))
      → has_calls (refund_fetched out false reason order r external_id db (fetch_return out r)).1
        ≡ true
  fetched-calls t (inl (m, b)) =
      ap (λ o. has_calls (refund_fetched out false reason order r external_id db o).1)
        (fetch_return-none m)
      ∙ refund_fetched-calls none b
  fetched-calls t (inr (n, i, v)) =
      let x =
        validated_found (out.get_customer_return (get_or r.allegro_return_id "")) refl
          (ap (validated out r external_id) (sym (fetched_once t i)) ∙ v) in
      ap (λ o. has_calls (refund_fetched out false reason order r external_id db o).1)
        (fetch_return-found x.0 i n x.1)
      ∙ refund_fetched-calls (some x.0) x.2

  pub process_allegro_refund-calls :
      is_woo_return r ≡ false
      → allegro_eligible out order r external_id ≡ true
      → has_calls (process_allegro_refund out false reason order r external_id db).1 ≡ true
  unfolding process_allegro_refund allegro_eligible check_cod_settlement build_refund_execution
      fetch_return
  process_allegro_refund-calls other e =
      let x =
        chain-Settles out.has_access_token (check_cod_settlement out order external_id)
          (is_manual_return r || is_stock_restored_refund_override r)
          (is_truthy r.allegro_return_id) _ _ e in
      rw (x.0, x.1, not_blocked other) (fetched-calls x.0 x.2)
