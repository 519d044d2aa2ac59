-- ===== src/Scanning/Pack.antt =====
-- check_and_auto_pack (magazyn/services/scanning.py). An answer is the session, the tables and the
-- result without its message for people.
use retrievershop_suite.Prelude.{
  ℕ, ◌+◌, ◌-◌, String, Option, none, some, List, [], ◌∷◌, Bool, true, false, not, ◌||◌,
  if◌then◌else◌, str_eq, mem_text, is_truthy, get_or, ltb, select, sum_by, lookup,
}
use retrievershop_suite.OrderStatus.Rows.{Db, OrderStatusLog, StatusDetails}
use retrievershop_suite.OrderStatus.Service.{
  Mailer, add_order_status, dispatch_status_email, insert, last_status,
}
use retrievershop_suite.Scanning.Tracking.{
  Counter, ProductScan, LabelScan, ScanState, OrderedProduct, to_positive_int, has_key, add_count,
  add_key, required_product_counts, normalize_order_tracking, serialize_order_tracking,
  product_scan_key, matched_scan_total,
}

abbrev pub auto_pack_required_status : String
auto_pack_required_status = "wydrukowano"

abbrev pub auto_pack_target_status : String
auto_pack_target_status = "spakowano"

pub record AutoPackResult : Type 0 where
  pub status : String
  pub order_id : Option String
  pub state_modified : Bool

-- `d.pop(k, None)`
abbrev pub remove {ℓ} : {V : Type ℓ} → String → List (String × V) → List (String × V)
remove k [] = []
remove k ((j, v) ∷ d) = if str_eq j k then d else (j, v) ∷ remove k d

unfoldable pub clear_auto_pack_state : ScanState → Option String → ScanState
clear_auto_pack_state s order_key = record {
  last_product_scan = none;
  last_label_scan = none;
  scanned_products_for_order = elim order_key [
    | none ↦ []
    | some k ↦ remove k s.scanned_products_for_order
  ];
}

-- Whether a scan is older than allowed; one whose timestamp is not a number always is.
unfoldable pub is_too_old : ℕ → ℕ → Option ℕ → Bool
is_too_old max_age now none = true
is_too_old max_age now (some t) = ltb (t + max_age) now

-- The counts and keys with this scan, counted unless its key is known.
unfoldable pub count_scan : ProductScan → ℕ → Counter × List String → Counter × List String
unfolding product_scan_key add_count
count_scan p k (c, keys) =
    if mem_text (product_scan_key p) keys
    then (c, keys)
    else (add_count k 1 c, add_key (product_scan_key p) keys)

unfoldable pub count_modified : ProductScan → List String → Bool
unfolding product_scan_key
count_modified p keys = not (mem_text (product_scan_key p) keys)

abbrev pub packed_details : StatusDetails
packed_details = record {
  tracking_number = none;
  courier_code = none;
  notes = some "Automatycznie spakowano po zeskanowaniu etykiety i produktów";
}

abbrev pub result_of : String → String → AutoPackResult
result_of status order_id = record {
  status = status;
  order_id = some order_id;
  state_modified = false;
}

-- `if counts:`
abbrev pub has_entries : Counter → Bool
has_entries [] = false
has_entries (_ ∷ _) = true

-- The session with the new counts of the order.
unfoldable pub track : String → Counter × List String → ScanState → ScanState
unfolding serialize_order_tracking
track order_id (c, keys) s = record s {
  scanned_products_for_order =
      insert order_id (serialize_order_tracking c keys) s.scanned_products_for_order;
}

module _ (mailer : Mailer) (order_products : List OrderedProduct) (clock : ℕ) where
  -- What follows the counting of the scan.
  unfoldable pub pack_counted :
      String → Counter → Counter → Bool → ScanState → Db → ScanState × Db × AutoPackResult
  unfolding matched_scan_total clear_auto_pack_state add_order_status dispatch_status_email
  pack_counted order_id required counted modified s db =
      if ltb 0 (sum_by (λ e. e.1) required - matched_scan_total required counted)
      then (s, db, record (result_of "partial" order_id) { state_modified = modified })
      else (
        clear_auto_pack_state s (some order_id),
        (add_order_status (dispatch_status_email mailer) clock db order_id auto_pack_target_status
            true false true packed_details).0,
        record (result_of "packed" order_id) { state_modified = true },
      )

  -- What follows the test of the status.
  unfoldable pub pack_printed :
      String → ℕ → ProductScan → ScanState → Db → ScanState × Db × AutoPackResult
  unfolding pack_counted track count_scan count_modified required_product_counts has_key
      normalize_order_tracking
  pack_printed order_id k p s db =
      let required =
        required_product_counts (select (λ x. str_eq x.order_id order_id) order_products) in
      let known = normalize_order_tracking (lookup order_id s.scanned_products_for_order) in
      let counted = count_scan p k known in
      if not (has_entries required)
      then (s, db, result_of "no_required_products" order_id)
      else if not (has_key k required)
      then (s, db, result_of "product_mismatch" order_id)
      else pack_counted order_id required counted.0 (count_modified p known.1)
          (track order_id counted s) db

  -- What follows the look at the last status.
  unfoldable pub pack_logged :
      String
      → ℕ
      → ProductScan
      → ScanState
      → Db
      → Option OrderStatusLog
      → ScanState × Db × AutoPackResult
  unfolding pack_printed
  pack_logged order_id k p s db none = (s, db, result_of "wrong_status" order_id)
  pack_logged order_id k p s db (some last) =
      if not (str_eq last.status auto_pack_required_status)
      then (s, db, result_of "wrong_status" order_id)
      else pack_printed order_id k p s db

  unfoldable pub pack_order :
      Option String → Option ℕ → ProductScan → ScanState → Db → ScanState × Db × AutoPackResult
  unfolding pack_logged last_status
  pack_order order_id none p s db =
      (s, db, record { status = "invalid_scan"; order_id = none; state_modified = false })
  pack_order order_id (some k) p s db =
      let id = get_or order_id "" in
      if not (is_truthy order_id)
      then (s, db, record { status = "invalid_scan"; order_id = none; state_modified = false })
      else pack_logged id k p s db (last_status id db.logs)

  module _ (max_age now : ℕ) where
    unfoldable pub pack_scans :
        Option ProductScan → Option LabelScan → ScanState → Db → ScanState × Db × AutoPackResult
    unfolding pack_order to_positive_int is_too_old clear_auto_pack_state
    pack_scans none label s db =
        (s, db, record { status = "waiting"; order_id = none; state_modified = false })
    pack_scans (some p) none s db =
        (s, db, record { status = "waiting"; order_id = none; state_modified = false })
    pack_scans (some p) (some l) s db =
        if is_too_old max_age now p.timestamp || is_too_old max_age now l.timestamp
        then (
          clear_auto_pack_state s none,
          db,
          record { status = "expired"; order_id = none; state_modified = true },
        )
        else pack_order l.order_id (to_positive_int p.product_size_id) p s db

    unfoldable pub check_and_auto_pack : ScanState → Db → ScanState × Db × AutoPackResult
    unfolding pack_scans
    check_and_auto_pack s db = pack_scans s.last_product_scan s.last_label_scan s db
