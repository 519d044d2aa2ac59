-- ===== src/Witnesses/Packing.antt =====
-- An order of two scarves that is packed by scanning (magazyn/services/scanning.py).
use retrievershop_suite.Prelude.{
  ◌≡◌, ◌≢◌, ap, refl, arith, String, none, some, List, [], ◌∷◌, false, str_eq,
}
use retrievershop_suite.Prelude.Int.{pos}
use retrievershop_suite.OrderStatus.Rows.{Db}
use retrievershop_suite.OrderStatus.Service.{Mailer, no_result, last_status}
use retrievershop_suite.Scanning.Tracking.{
  ScanState, OrderedProduct, listed, to_positive_int, count_of, has_key, add_count, add_read,
  required_product_counts, normalize_order_tracking, read_counts, read_keys,
  serialize_order_tracking, product_scan_key, matched_scan_total,
}
use retrievershop_suite.Scanning.Pack.{
  check_and_auto_pack, pack_scans, pack_order, pack_logged, pack_printed, pack_counted, count_scan,
  is_too_old, track,
}
use retrievershop_suite.Scanning.Counters.{
  IsCounter, IsKeySet, IsTracked, normalize_order_tracking-IsTracked,
}
use retrievershop_suite.Scanning.Kept.{normalize-serialize}
use retrievershop_suite.Scanning.Complete.{
  IsPacked, check_and_auto_pack-IsPacked, check_and_auto_pack_refuses,
}
use retrievershop_suite.Scanning.Once.{check_and_auto_pack_counts_once}

abbrev quiet : Mailer
quiet = record {
  send_order_confirmation = λ order. no_result;
  send_shipment_notification = λ order. no_result;
  send_delivery_confirmation = λ order. no_result;
  send_invoice_correction = λ order. no_result;
}

abbrev two_scarves : List OrderedProduct
two_scarves =
    record { order_id = "o1"; product_size_id = some (pos 7); quantity = some (pos 2) } ∷ []

abbrev scan_of : String → ScanState → ScanState
scan_of key s = record s {
  last_product_scan = some (record {
    scan_key = some key;
    barcode = some "590";
    product_size_text = some "7";
    timestamp_text = none;
    product_size_id = some (pos 7);
    timestamp = some 100;
  });
}

abbrev label_scanned : ScanState
label_scanned = record {
  last_product_scan = none;
  last_label_scan = some (record { order_id = some "o1"; timestamp = some 100 });
  scanned_products_for_order = [];
}

abbrev printed_order : Db
printed_order = record {
  orders = [];
  logs =
      record {
        order_id = "o1";
        status = "wydrukowano";
        tracking_number = none;
        courier_code = none;
        notes = none;
        timestamp = 3;
      }
      ∷ [];
  outbox = [];
}

abbrev first_scan : ScanState
first_scan = scan_of "590:100" label_scanned

abbrev second_scan : ScanState
second_scan =
    scan_of "590:101" (check_and_auto_pack quiet two_scarves 9 120 110 first_scan printed_order).0

first_partial :
    (check_and_auto_pack quiet two_scarves 9 120 110 first_scan printed_order).2.status ≡ "partial"
unfolding check_and_auto_pack pack_scans pack_order pack_logged pack_printed pack_counted count_scan
    is_too_old last_status required_product_counts add_count add_read to_positive_int has_key
    normalize_order_tracking product_scan_key matched_scan_total count_of
first_partial = refl

second_packed :
    (check_and_auto_pack quiet two_scarves 9 120 110 second_scan printed_order).2.status ≡ "packed"
unfolding check_and_auto_pack pack_scans pack_order pack_logged pack_printed pack_counted count_scan
    is_too_old last_status required_product_counts add_count add_read to_positive_int has_key
    normalize_order_tracking product_scan_key matched_scan_total count_of track
    serialize_order_tracking read_counts read_keys
second_packed = refl

check_and_auto_pack-IsPacked_example :
    IsPacked quiet two_scarves 9 120 110 second_scan printed_order
      (check_and_auto_pack quiet two_scarves 9 120 110 second_scan printed_order)
check_and_auto_pack-IsPacked_example =
    check_and_auto_pack-IsPacked quiet two_scarves 9 120 110 second_scan printed_order second_packed

first_not_packed :
    (check_and_auto_pack quiet two_scarves 9 120 110 first_scan printed_order).2.status ≢ "packed"
first_not_packed e =
    let q = ap (λ t. str_eq t "packed") e in let p = ap (λ t. str_eq t "packed") first_partial in cc

check_and_auto_pack_refuses_example :
    (check_and_auto_pack quiet two_scarves 9 120 110 first_scan printed_order).1 ≡ printed_order
check_and_auto_pack_refuses_example =
    check_and_auto_pack_refuses quiet two_scarves 9 120 110 first_scan printed_order
      first_not_packed

check_and_auto_pack_counts_once_example :
    let x = check_and_auto_pack quiet two_scarves 9 120 110 first_scan printed_order in
    check_and_auto_pack quiet two_scarves 9 120 110 x.0 printed_order
    ≡ (x.0, printed_order, record x.2 { state_modified = false })
check_and_auto_pack_counts_once_example =
    check_and_auto_pack_counts_once quiet two_scarves 9 120 110 printed_order first_scan
      first_partial

two_kept : IsTracked ((7, 2) ∷ [], "590:100" ∷ "590:101" ∷ [])
unfolding IsCounter IsKeySet has_key
two_kept = ((omega arith, omega arith, refl, tt), (refl, refl, (refl, refl, tt)))

normalize-serialize_example :
    normalize_order_tracking
      (some (serialize_order_tracking ((7, 2) ∷ []) ("590:100" ∷ "590:101" ∷ [])))
    ≡ ((7, 2) ∷ [], "590:100" ∷ "590:101" ∷ [])
normalize-serialize_example =
    normalize-serialize ((7, 2) ∷ []) ("590:100" ∷ "590:101" ∷ []) two_kept

normalize_order_tracking-IsTracked_example :
    IsTracked (normalize_order_tracking (some (listed (some (pos 7) ∷ none ∷ some (pos 7) ∷ []))))
normalize_order_tracking-IsTracked_example =
    normalize_order_tracking-IsTracked (some (listed (some (pos 7) ∷ none ∷ some (pos 7) ∷ [])))
