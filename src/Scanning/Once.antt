-- ===== src/Scanning/Once.antt =====
-- A scan counts once, and an order is packed once (magazyn/services/scanning.py).
use retrievershop_suite.Prelude.{
  ℕ, ◌<◌, ◌≡◌, refl, ap, subst, ◌∙◌, String, Option, none, some, List, [], ◌∷◌, true, false, not,
  inl, inr, Bool-cases, str_eq, mem_text, ltb, ltb→lt, if◌then◌else◌,
}
use retrievershop_suite.Prelude.Int.{ℤ, pos, negsuc}
use retrievershop_suite.OrderStatus.Rows.{Db}
use retrievershop_suite.OrderStatus.Service.{Mailer}
use retrievershop_suite.Scanning.Tracking.{
  ProductScan, ScanState, OrderedProduct, to_positive_int, has_key, product_scan_key,
}
use retrievershop_suite.Scanning.Pack.{
  AutoPackResult, count_scan, count_modified, track, has_entries, pack_counted, pack_printed,
  check_and_auto_pack, result_of,
}
use retrievershop_suite.Scanning.Ready.{
  Ready, Checks, stops, counts, check-Ready, check_and_auto_pack-Checks,
}
use retrievershop_suite.Scanning.Packed.{
  Counts, refused, partial, packed, pack_printed-Counts, required_of, known_of, is_missing,
}
use retrievershop_suite.Scanning.Again.{
  known_of-track, track-twice, count_scan-known, counted_twice-keys,
}

positive_number : (n k : ℕ) → (if ltb 0 n then some n else none) ≡ some k → 0 < k
positive_number n k e = elim (Bool-cases (ltb 0 n)) [
  | inl t ↦
      let q : some n ≡ some k = rw t at e in
      let m : n ≡ k = cc in subst (λ i. 0 < i) m (ltb→lt 0 n t)
  | inr u ↦ let q : none ≡ some k = rw u at e in cc
]

to_positive_int_positive : (z : Option ℤ) (k : ℕ) → to_positive_int z ≡ some k → 0 < k
unfolding to_positive_int
to_positive_int_positive none k e = cc
to_positive_int_positive (some (pos n)) k e = positive_number n k e
to_positive_int_positive (some (negsuc n)) k e = cc

module _ (mailer : Mailer) (order_products : List OrderedProduct) (clock : ℕ) where
  module _ (order_id : String) (k : ℕ) (p : ProductScan) (db : Db) where
    pack_printed-partial :
        (s : ScanState)
        → has_entries (required_of order_products order_id) ≡ true
        → has_key k (required_of order_products order_id) ≡ true
        → is_missing (required_of order_products order_id) (count_scan p k (known_of order_id s)).0
          ≡ true
        → pack_printed mailer order_products clock order_id k p s db ≡ (
          track order_id (count_scan p k (known_of order_id s)) s,
          db,
          record (result_of "partial" order_id) {
            state_modified = count_modified p (known_of order_id s).1;
          },
        )
    unfolding pack_printed pack_counted
    pack_printed-partial s e h m = rw (e, h, m) refl

    pack_printed-again :
        (s : ScanState)
        → 0 < k
        → has_entries (required_of order_products order_id) ≡ true
        → has_key k (required_of order_products order_id) ≡ true
        → is_missing (required_of order_products order_id) (count_scan p k (known_of order_id s)).0
          ≡ true
        → let s' = track order_id (count_scan p k (known_of order_id s)) s in
          pack_printed mailer order_products clock order_id k p s' db
          ≡ (s', db, result_of "partial" order_id)
    unfolding count_modified
    pack_printed-again s pos_k e h m =
        let counted = count_scan p k (known_of order_id s) in
        let s' = track order_id counted s in
        let kept = known_of-track order_id k p s pos_k in
        let same : count_scan p k (known_of order_id s') ≡ counted =
          ap (count_scan p k) kept ∙ count_scan-known p k (known_of order_id s) in
        let missing = ap (λ t. is_missing (required_of order_products order_id) t.0) same ∙ m in
        let unmodified : count_modified p (known_of order_id s').1 ≡ false =
          ap (λ t. not (mem_text (product_scan_key p) t.1)) kept
          ∙ ap not (counted_twice-keys p k (known_of order_id s)) in
        pack_printed-partial s' e h missing
        ∙ ap
            (λ z. (
              z,
              db,
              record (result_of "partial" order_id) {
                state_modified = count_modified p (known_of order_id s').1;
              },
            ))
            (track-twice order_id k p s pos_k)
        ∙ ap (λ b. (s', db, record (result_of "partial" order_id) { state_modified = b }))
            unmodified

  module _ (max_age now : ℕ) (db : Db) where
    abbrev check : ScanState → ScanState × Db × AutoPackResult
    check s = check_and_auto_pack mailer order_products clock max_age now s db

    abbrev IsSteady : ScanState × Db × AutoPackResult → Type 0
    IsSteady x = check x.0 ≡ (x.0, db, record x.2 { state_modified = false })

    counted-IsSteady :
        (s : ScanState) (h : Ready max_age now s db) (x : ScanState × Db × AutoPackResult)
        → Counts mailer order_products clock h.order_id h.product_size_id h.product s db x
        → x.2.status ≡ "partial"
        → IsSteady x
    unfolding track
    counted-IsSteady s h _ (refused status n) e =
        let q = subst (λ t. mem_text t ("partial" ∷ "packed" ∷ []) ≡ false) e n in cc
    counted-IsSteady s h _ (packed e1 e2) e = let q = ap (λ t. str_eq t "partial") e in cc
    counted-IsSteady s h _ (partial some_required belongs missing) e =
        let s' =
          track h.order_id (count_scan h.product h.product_size_id (known_of h.order_id s)) s in
        let h' : Ready max_age now s' db = record {
          product = h.product;
          label = h.label;
          order_id = h.order_id;
          product_size_id = h.product_size_id;
          last = h.last;
          product_scanned = h.product_scanned;
          label_scanned = h.label_scanned;
          product_fresh = h.product_fresh;
          label_fresh = h.label_fresh;
          labelled = h.labelled;
          order_named = h.order_named;
          identified = h.identified;
          logged = h.logged;
          printed = h.printed;
        } in
        check-Ready mailer order_products max_age now clock s' db h'
        ∙ pack_printed-again h.order_id h.product_size_id h.product db s
            (to_positive_int_positive h.product.product_size_id h.product_size_id h.identified)
            some_required belongs missing

    checked-IsSteady :
        (s : ScanState) (x : ScanState × Db × AutoPackResult)
        → Checks mailer order_products clock max_age now s db x
        → x.2.status ≡ "partial"
        → IsSteady x
    checked-IsSteady s _ (stops s' r n) e =
        let q = subst (λ t. mem_text t ("partial" ∷ "packed" ∷ []) ≡ false) e n in cc
    checked-IsSteady s _ (counts h) e =
        counted-IsSteady s h _
          (pack_printed-Counts mailer order_products clock h.order_id h.product_size_id h.product s
            db)
          e

    -- When check_and_auto_pack answers "partial" and is called again at the same time with the session
    -- and the tables that it left, it gives the same session, the same tables and the same result with
    -- state_modified false: a scan is not counted twice.
    pub check_and_auto_pack_counts_once :
        (s : ScanState)
        → (check_and_auto_pack mailer order_products clock max_age now s db).2.status ≡ "partial"
        → let x = check_and_auto_pack mailer order_products clock max_age now s db in
          check_and_auto_pack mailer order_products clock max_age now x.0 db
          ≡ (x.0, db, record x.2 { state_modified = false })
    check_and_auto_pack_counts_once s e =
        checked-IsSteady s _
          (check_and_auto_pack-Checks mailer order_products clock max_age now s db) e
