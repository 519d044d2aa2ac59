-- ===== src/Scanning/Complete.antt =====
-- What packing an order tells of its scans, and checking again (magazyn/services/scanning.py).
use retrievershop_suite.Prelude.{
  ℕ, ◌-◌, ◌≤◌, ◌≡◌, ◌≢◌, refl, subst, ap, List, [], ◌∷◌, true, false, str_eq, mem_text, ltb, none,
  tests,
}
use retrievershop_suite.OrderStatus.Rows.{Db}
use retrievershop_suite.OrderStatus.Service.{Mailer, add_order_status, dispatch_status_email}
use retrievershop_suite.Scanning.Tracking.{ScanState, OrderedProduct, count_of, has_key}
use retrievershop_suite.Scanning.Pack.{
  AutoPackResult, auto_pack_target_status, packed_details, clear_auto_pack_state, count_scan,
  check_and_auto_pack,
}
use retrievershop_suite.Scanning.Ready.{Ready, Checks, stops, counts, check_and_auto_pack-Checks}
use retrievershop_suite.Scanning.Packed.{
  Counts, refused, partial, packed, pack_printed-Counts, matched_complete, required_of, known_of,
}

not_missing : (a b : ℕ) → ltb 0 (a - b) ≡ false → a ≤ b
not_missing a b h = grind tests

-- That an order is packed: what the scans say, and what is written.
pub record IsPacked (mailer : Mailer) (order_products : List OrderedProduct) (clock max_age now : ℕ)
    (s : ScanState) (db : Db) (answer : ScanState × Db × AutoPackResult) : Type 0 where
  pub ready : Ready max_age now s db
  pub belongs : has_key ready.product_size_id (required_of order_products ready.order_id) ≡ true
  pub complete :
      (j : ℕ)
      → count_of j (required_of order_products ready.order_id)
        ≤ count_of j (count_scan ready.product ready.product_size_id (known_of ready.order_id s)).0
  pub cleared : (answer.0.last_product_scan ≡ none) × (answer.0.last_label_scan ≡ none)
  pub logged :
      answer.1
      ≡ (add_order_status
          (dispatch_status_email mailer)
          clock
          db
          ready.order_id
          auto_pack_target_status
          true
          false
          true
          packed_details).0

module _ (mailer : Mailer) (order_products : List OrderedProduct) (clock max_age now : ℕ)
    (s : ScanState) (db : Db) where
  counted-IsPacked :
      (h : Ready max_age now s db) (x : ScanState × Db × AutoPackResult)
      → Counts mailer order_products clock h.order_id h.product_size_id h.product s db x
      → x.2.status ≡ "packed"
      → IsPacked mailer order_products clock max_age now s db x
  unfolding clear_auto_pack_state
  counted-IsPacked h _ (refused status n) e =
      let q = subst (λ t. mem_text t ("partial" ∷ "packed" ∷ []) ≡ false) e n in cc
  counted-IsPacked h _ (partial e1 e2 e3) e = let q = ap (λ t. str_eq t "packed") e in cc
  counted-IsPacked h _ (packed belongs full) e = record {
    ready = h;
    belongs = belongs;
    complete = λ j. matched_complete _ _ j (not_missing _ _ full);
    cleared = (refl, refl);
    logged = refl;
  }

  checked-IsPacked :
      (x : ScanState × Db × AutoPackResult)
      → Checks mailer order_products clock max_age now s db x
      → x.2.status ≡ "packed"
      → IsPacked mailer order_products clock max_age now s db x
  checked-IsPacked _ (stops s' r n) e =
      let q = subst (λ t. mem_text t ("partial" ∷ "packed" ∷ []) ≡ false) e n in cc
  checked-IsPacked _ (counts h) e =
      counted-IsPacked h _
        (pack_printed-Counts mailer order_products clock h.order_id h.product_size_id h.product s
          db)
        e

  -- When check_and_auto_pack answers "packed": both scans are there and not older than max_age; the
  -- last status of the labelled order is "wydrukowano"; the product belongs to the order; of every
  -- product size at least as many pieces are scanned as the order requires; the session has no scans
  -- left; and the tables are those that add_order_status leaves with the status "spakowano".
  pub check_and_auto_pack-IsPacked :
      (check_and_auto_pack mailer order_products clock max_age now s db).2.status ≡ "packed"
      → IsPacked mailer order_products clock max_age now s db
          (check_and_auto_pack mailer order_products clock max_age now s db)
  check_and_auto_pack-IsPacked e =
      checked-IsPacked _ (check_and_auto_pack-Checks mailer order_products clock max_age now s db) e

  counted_same :
      (h : Ready max_age now s db) (x : ScanState × Db × AutoPackResult)
      → Counts mailer order_products clock h.order_id h.product_size_id h.product s db x
      → x.2.status ≢ "packed"
      → x.1 ≡ db
  counted_same h _ (refused status n) e = refl
  counted_same h _ (partial e1 e2 e3) e = refl
  counted_same h _ (packed e1 e2) e = elim (e refl) [ ]

  checked_same :
      (x : ScanState × Db × AutoPackResult)
      → Checks mailer order_products clock max_age now s db x
      → x.2.status ≢ "packed"
      → x.1 ≡ db
  checked_same _ (stops s' r n) e = refl
  checked_same _ (counts h) e =
      counted_same h _
        (pack_printed-Counts mailer order_products clock h.order_id h.product_size_id h.product s
          db)
        e

  -- With every other answer than "packed", check_and_auto_pack leaves the tables as they are.
  pub check_and_auto_pack_refuses :
      (check_and_auto_pack mailer order_products clock max_age now s db).2.status ≢ "packed"
      → (check_and_auto_pack mailer order_products clock max_age now s db).1 ≡ db
  check_and_auto_pack_refuses e =
      checked_same _ (check_and_auto_pack-Checks mailer order_products clock max_age now s db) e
