-- ===== src/Scanning/Packed.antt =====
-- When an order is packed (magazyn/services/scanning.py).
use retrievershop_suite.Prelude.{
  ℕ, ◌+◌, ◌-◌, ◌≤◌, ◌==◌, min, ◌≡◌, refl, subst, arith, String, List, [], ◌∷◌, Bool, true, false,
  inl, inr, Bool-cases, str_eq, mem_text, ltb, ==_iff, some, lookup, select, sum_by,
}
use retrievershop_suite.OrderStatus.Rows.{Db}
use retrievershop_suite.OrderStatus.Service.{Mailer, add_order_status, dispatch_status_email}
use retrievershop_suite.Scanning.Tracking.{
  Counter, ProductScan, ScanState, OrderedProduct, count_of, has_key, required_product_counts,
  normalize_order_tracking, matched_scan_total,
}
use retrievershop_suite.Scanning.Pack.{
  AutoPackResult, auto_pack_target_status, packed_details, clear_auto_pack_state, count_scan,
  count_modified, track, has_entries, pack_counted, pack_printed, result_of,
}

matched_scan_total_bound :
    (required scanned : Counter) → matched_scan_total required scanned ≤ sum_by (λ e. e.1) required
unfolding matched_scan_total
matched_scan_total_bound [] scanned = omega arith
matched_scan_total_bound ((k, n) ∷ required) scanned =
    let rest = matched_scan_total_bound required scanned in ground (arith, rest)

min_full : (a n s m : ℕ) → n + s ≤ min a n + m → m ≤ s → n ≤ a
min_full a n s m h b = omega (arith, h, b)

min_rest : (a n s m : ℕ) → n + s ≤ min a n + m → s ≤ m
min_rest a n s m h = omega (arith, h)

-- Where no piece is missing, as many as are required of each product are scanned.
pub matched_complete :
    (required scanned : Counter) (j : ℕ)
    → sum_by (λ e. e.1) required ≤ matched_scan_total required scanned
    → count_of j required ≤ count_of j scanned
unfolding matched_scan_total count_of
matched_complete [] scanned j h = omega arith
matched_complete ((k, n) ∷ required) scanned j h = elim (Bool-cases (k == j)) [
  | inl t ↦ rw t (
      subst (λ i. n ≤ count_of i scanned) ((==_iff k j).0 t)
        (min_full (count_of k scanned) n (sum_by (λ e. e.1) required)
          (matched_scan_total required scanned) h (matched_scan_total_bound required scanned)))
  | inr u ↦ rw u (matched_complete required scanned j (min_rest (count_of k scanned) n _ _ h))
]

-- The counts that the order requires, and those of the session with the scan.
abbrev pub required_of : List OrderedProduct → String → Counter
required_of order_products order_id =
    required_product_counts (select (λ x. str_eq x.order_id order_id) order_products)

abbrev pub known_of : String → ScanState → Counter × List String
known_of order_id s = normalize_order_tracking (lookup order_id s.scanned_products_for_order)

abbrev pub is_missing : Counter → Counter → Bool
is_missing required counted =
    ltb 0 (sum_by (λ e. e.1) required - matched_scan_total required counted)

module _ (mailer : Mailer) (order_products : List OrderedProduct) (clock : ℕ) (order_id : String)
    (k : ℕ) (p : ProductScan) (s : ScanState) (db : Db) where
  abbrev Counted : Counter × List String
  Counted = count_scan p k (known_of order_id s)

  -- How the counting of a scan answers.
  pub data Counts : ScanState × Db × AutoPackResult → Type 0 where
    refused :
        (status : String)
        → mem_text status ("partial" ∷ "packed" ∷ []) ≡ false
        → Counts (s, db, result_of status order_id)
    partial :
        has_entries (required_of order_products order_id) ≡ true
        → has_key k (required_of order_products order_id) ≡ true
        → is_missing (required_of order_products order_id) Counted.0 ≡ true
        → Counts (
          track order_id Counted s,
          db,
          record (result_of "partial" order_id) {
            state_modified = count_modified p (known_of order_id s).1;
          },
        )
    packed :
        has_key k (required_of order_products order_id) ≡ true
        → is_missing (required_of order_products order_id) Counted.0 ≡ false
        → Counts (
          clear_auto_pack_state (track order_id Counted s) (some order_id),
          (add_order_status
              (dispatch_status_email mailer)
              clock
              db
              order_id
              auto_pack_target_status
              true
              false
              true
              packed_details).0,
          record (result_of "packed" order_id) { state_modified = true },
        )

  pub pack_printed-Counts : Counts (pack_printed mailer order_products clock order_id k p s db)
  unfolding pack_printed pack_counted
  pack_printed-Counts = elim (Bool-cases (has_entries (required_of order_products order_id))) [
    | inr u ↦ rw u (refused _ refl)
    | inl e ↦ elim (Bool-cases (has_key k (required_of order_products order_id))) [
      | inr u ↦ rw (e, u) (refused _ refl)
      | inl h ↦ elim (Bool-cases (is_missing (required_of order_products order_id) Counted.0)) [
        | inl t ↦ rw (e, h, t) (partial e h t)
        | inr u ↦ rw (e, h, u) (packed h u)
      ]
    ]
  ]
