-- ===== src/Scanning/Ready.antt =====
-- When check_and_auto_pack comes to count the scan (magazyn/services/scanning.py).
use retrievershop_suite.Prelude.{
  ℕ, ◌≡◌, refl, ap, ◌∙◌, String, Option, none, some, List, [], ◌∷◌, mem_text, true, false, inl, inr,
  Bool-cases, str_eq,
}
use retrievershop_suite.OrderStatus.Rows.{Db, OrderStatusLog}
use retrievershop_suite.OrderStatus.Service.{Mailer, last_status}
use retrievershop_suite.Scanning.Tracking.{
  ProductScan, LabelScan, ScanState, OrderedProduct, to_positive_int,
}
use retrievershop_suite.Scanning.Pack.{
  AutoPackResult, auto_pack_required_status, is_too_old, pack_printed, pack_order, pack_logged,
  pack_scans, check_and_auto_pack,
}

-- Both scans are there and young enough, the label names an order whose last status is printed, and
-- the product has an id.
pub record Ready (max_age now : ℕ) (s : ScanState) (db : Db) : Type 0 where
  pub product : ProductScan
  pub label : LabelScan
  pub order_id : String
  pub product_size_id : ℕ
  pub last : OrderStatusLog
  pub product_scanned : s.last_product_scan ≡ some product
  pub label_scanned : s.last_label_scan ≡ some label
  pub product_fresh : is_too_old max_age now product.timestamp ≡ false
  pub label_fresh : is_too_old max_age now label.timestamp ≡ false
  pub labelled : label.order_id ≡ some order_id
  pub order_named : str_eq order_id "" ≡ false
  pub identified : to_positive_int product.product_size_id ≡ some product_size_id
  pub logged : last_status order_id db.logs ≡ some last
  pub printed : str_eq last.status auto_pack_required_status ≡ true

module _ (mailer : Mailer) (order_products : List OrderedProduct) (max_age now clock : ℕ)
    (s : ScanState) (db : Db) where
  pack_scans-fresh :
      (p : ProductScan) (l : LabelScan)
      → is_too_old max_age now p.timestamp ≡ false
      → is_too_old max_age now l.timestamp ≡ false
      → pack_scans mailer order_products clock max_age now (some p) (some l) s db
        ≡ pack_order mailer order_products clock l.order_id
            (to_positive_int p.product_size_id)
            p
            s
            db
  unfolding pack_scans
  pack_scans-fresh p l e f = rw (e, f) refl

  pack_order-printed :
      (order_id : String) (k : ℕ) (p : ProductScan) (last : OrderStatusLog)
      → str_eq order_id "" ≡ false
      → last_status order_id db.logs ≡ some last
      → str_eq last.status auto_pack_required_status ≡ true
      → pack_order mailer order_products clock (some order_id) (some k) p s db
        ≡ pack_printed mailer order_products clock order_id k p s db
  unfolding pack_order pack_logged
  pack_order-printed order_id k p last named logged printed =
      rw named
        (ap (pack_logged mailer order_products clock order_id k p s db) logged ∙ rw printed refl)

  -- Then the answer is that of the counting.
  pub check-Ready :
      (h : Ready max_age now s db)
      → check_and_auto_pack mailer order_products clock max_age now s db
        ≡ pack_printed mailer order_products clock h.order_id h.product_size_id h.product s db
  unfolding check_and_auto_pack
  check-Ready h =
      let scans = pack_scans mailer order_products clock max_age now in
      let order = pack_order mailer order_products clock in
      ap (λ o. scans o s.last_label_scan s db) h.product_scanned
      ∙ ap (λ o. scans (some h.product) o s db) h.label_scanned
      ∙ pack_scans-fresh h.product h.label h.product_fresh h.label_fresh
      ∙ ap (λ o. order o (to_positive_int h.product.product_size_id) h.product s db) h.labelled
      ∙ ap (λ o. order (some h.order_id) o h.product s db) h.identified
      ∙ pack_order-printed h.order_id h.product_size_id h.product h.last h.order_named h.logged
          h.printed

-- An answer before the scan is counted leaves the tables; the counting answers otherwise.
pub data Checks (mailer : Mailer) (order_products : List OrderedProduct) (clock max_age now : ℕ)
    (s : ScanState) (db : Db) : ScanState × Db × AutoPackResult → Type 0 where
  stops :
      (s' : ScanState) (r : AutoPackResult)
      → mem_text r.status ("partial" ∷ "packed" ∷ []) ≡ false
      → Checks mailer order_products clock max_age now s db (s', db, r)
  counts :
      (h : Ready max_age now s db)
      → Checks mailer order_products clock max_age now s db
          (pack_printed mailer order_products clock h.order_id h.product_size_id h.product s db)

module _ (mailer : Mailer) (order_products : List OrderedProduct) (clock max_age now : ℕ)
    (s : ScanState) (db : Db) where
  pack_logged-Checks :
      (p : ProductScan) (l : LabelScan) (id : String) (k : ℕ) (o : Option OrderStatusLog)
      → s.last_product_scan ≡ some p
      → s.last_label_scan ≡ some l
      → is_too_old max_age now p.timestamp ≡ false
      → is_too_old max_age now l.timestamp ≡ false
      → l.order_id ≡ some id
      → str_eq id "" ≡ false
      → to_positive_int p.product_size_id ≡ some k
      → last_status id db.logs ≡ o
      → Checks mailer order_products clock max_age now s db
          (pack_logged mailer order_products clock id k p s db o)
  unfolding pack_logged
  pack_logged-Checks p l id k none ps ls pf lf lo named ip e = stops s _ refl
  pack_logged-Checks p l id k (some last) ps ls pf lf lo named ip e =
      elim (Bool-cases (str_eq last.status auto_pack_required_status)) [
        | inr v ↦ rw v (stops s _ refl)
        | inl w ↦ rw w (
            counts record {
              product = p;
              label = l;
              order_id = id;
              product_size_id = k;
              last = last;
              product_scanned = ps;
              label_scanned = ls;
              product_fresh = pf;
              label_fresh = lf;
              labelled = lo;
              order_named = named;
              identified = ip;
              logged = e;
              printed = w;
            })
      ]

  pack_order-Checks :
      (p : ProductScan) (l : LabelScan) (o : Option String) (n : Option ℕ)
      → s.last_product_scan ≡ some p
      → s.last_label_scan ≡ some l
      → is_too_old max_age now p.timestamp ≡ false
      → is_too_old max_age now l.timestamp ≡ false
      → l.order_id ≡ o
      → to_positive_int p.product_size_id ≡ n
      → Checks mailer order_products clock max_age now s db
          (pack_order mailer order_products clock o n p s db)
  unfolding pack_order
  pack_order-Checks p l o none ps ls pf lf lo ip = stops s _ refl
  pack_order-Checks p l none (some k) ps ls pf lf lo ip = stops s _ refl
  pack_order-Checks p l (some id) (some k) ps ls pf lf lo ip = elim (Bool-cases (str_eq id "")) [
    | inl t ↦ rw t (stops s _ refl)
    | inr u ↦ rw u (pack_logged-Checks p l id k (last_status id db.logs) ps ls pf lf lo u ip refl)
  ]

  pack_scans-Checks :
      (p : Option ProductScan) (l : Option LabelScan)
      → s.last_product_scan ≡ p
      → s.last_label_scan ≡ l
      → Checks mailer order_products clock max_age now s db
          (pack_scans mailer order_products clock max_age now p l s db)
  unfolding pack_scans
  pack_scans-Checks none l ps ls = stops s _ refl
  pack_scans-Checks (some p) none ps ls = stops s _ refl
  pack_scans-Checks (some p) (some l) ps ls =
      elim (Bool-cases (is_too_old max_age now p.timestamp)) [
        | inl t ↦ rw t (stops _ _ refl)
        | inr u ↦ elim (Bool-cases (is_too_old max_age now l.timestamp)) [
          | inl t ↦ rw (u, t) (stops _ _ refl)
          | inr v ↦ rw (u, v) (pack_order-Checks p l _ _ ps ls u v refl refl)
        ]
      ]

  pub check_and_auto_pack-Checks :
      Checks mailer order_products clock max_age now s db
        (check_and_auto_pack mailer order_products clock max_age now s db)
  unfolding check_and_auto_pack
  check_and_auto_pack-Checks = pack_scans-Checks s.last_product_scan s.last_label_scan refl refl
