-- ===== src/Scanning/Again.antt =====
-- Checking a session once more (magazyn/services/scanning.py).
use Prim.Native.String.{count, ◌++◌ as text_append}
use text.Mathlib.TextLemmas.{length-append}
use text.Mathlib.TextEquality.{eq_iff}
use retrievershop_suite.Prelude.{
  ℕ, zero, suc, ◌<◌, ◌≡◌, refl, ap, ◌∙◌, arith, String, Option, none, some, List, [], ◌∷◌, true,
  false, inl, inr, Bool-cases, str_eq, str_eq_refl, equal_texts, mem_text, lookup, is_truthy,
  get_or,
}
use retrievershop_suite.OrderStatus.Service.{insert}
use retrievershop_suite.Scanning.Tracking.{
  Counter, ProductScan, ScanState, product_scan_key, serialize_order_tracking,
}
use retrievershop_suite.Scanning.Pack.{count_scan, track}
use retrievershop_suite.Scanning.Counters.{normalize_order_tracking-IsTracked, count_scan-IsTracked}
use retrievershop_suite.Scanning.Kept.{normalize-serialize}
use retrievershop_suite.Scanning.Packed.{known_of}

-- The key of a scan is not empty.
nonempty_suffix :
    (a b c : String)
    → str_eq (text_append a (text_append ":" (text_append b (text_append ":" c)))) "" ≡ false
nonempty_suffix a b c =
    elim (Bool-cases
      (str_eq (text_append a (text_append ":" (text_append b (text_append ":" c)))) "")) [
        | inr u ↦ u
        | inl t ↦
            let e = ap count (equal_texts _ _ t) in
            let n = length-append a (text_append ":" (text_append b (text_append ":" c))) in
            let m = length-append ":" (text_append b (text_append ":" c)) in
            let one : count ":" ≡ 1 = refl in
            let none_left : count "" ≡ 0 = refl in
            let q : suc zero ≡ zero = omega (arith, e, n, m, one, none_left) in cc
      ]

product_scan_key_nonempty : (p : ProductScan) → str_eq (product_scan_key p) "" ≡ false
unfolding product_scan_key
product_scan_key_nonempty p = elim (Bool-cases (is_truthy p.scan_key)) [
  | inl t ↦ rw t (explicit p.scan_key t)
  | inr u ↦ rw u (nonempty_suffix _ _ _)
]
  where
    explicit : (o : Option String) → is_truthy o ≡ true → str_eq (get_or o "") "" ≡ false
    explicit none t = cc
    explicit (some s) t = elim (Bool-cases (str_eq s "")) [
      | inl e ↦ let q : false ≡ true = rw e at t in cc
      | inr u ↦ u
    ]

lookup-insert {ℓ} :
    {V : Type ℓ} (k : String) (v : V) (d : List (String × V)) → lookup k (insert k v d) ≡ some v
lookup-insert k v [] = ground (arith, eq_iff k k)
lookup-insert k v ((j, w) ∷ d) = ground (arith, lookup-insert k v d)

insert-insert {ℓ} :
    {V : Type ℓ} (k : String) (v w : V) (d : List (String × V))
    → insert k v (insert k w d) ≡ insert k v d
insert-insert k v w [] = rw (str_eq_refl k) refl
insert-insert k v w ((j, x) ∷ d) = elim (Bool-cases (str_eq j k)) [
  | inl t ↦ rw (t, t) refl
  | inr u ↦ rw (u, u, insert-insert k v w d) refl
]

pub count_scan-known :
    (p : ProductScan) (k : ℕ) (t : Counter × List String)
    → count_scan p k (count_scan p k t) ≡ count_scan p k t
unfolding count_scan
count_scan-known p k (c, keys) = elim (Bool-cases (mem_text (product_scan_key p) keys)) [
  | inl t ↦ rw (t, t) refl
  | inr u ↦ rw (u, str_eq_refl (product_scan_key p)) refl
]

pub counted_twice-keys :
    (p : ProductScan) (k : ℕ) (t : Counter × List String)
    → mem_text (product_scan_key p) (count_scan p k t).1 ≡ true
unfolding count_scan
counted_twice-keys p k (c, keys) = elim (Bool-cases (mem_text (product_scan_key p) keys)) [
  | inl t ↦ rw (t, t) refl
  | inr u ↦ rw (u, str_eq_refl (product_scan_key p)) refl
]

module _ (order_id : String) (k : ℕ) (p : ProductScan) (s : ScanState) (pos_k : 0 < k) where
  abbrev Counted : Counter × List String
  Counted = count_scan p k (known_of order_id s)

  -- What the session reads back after the scan is counted.
  pub known_of-track : known_of order_id (track order_id Counted s) ≡ Counted
  unfolding track
  known_of-track =
      let kept =
        count_scan-IsTracked p k (known_of order_id s) pos_k (product_scan_key_nonempty p)
          (normalize_order_tracking-IsTracked (lookup order_id s.scanned_products_for_order)) in
      rw
        (lookup-insert order_id (serialize_order_tracking Counted.0 Counted.1)
          s.scanned_products_for_order)
        (normalize-serialize Counted.0 Counted.1 kept)

  -- Counting the same scan once more leaves the session.
  pub track-twice :
      track order_id
        (count_scan p k (known_of order_id (track order_id Counted s)))
        (track order_id Counted s)
      ≡ track order_id Counted s
  unfolding track
  track-twice =
      ap (λ t. track order_id (count_scan p k t) (track order_id Counted s)) known_of-track
      ∙ ap (λ t. track order_id t (track order_id Counted s))
          (count_scan-known p k (known_of order_id s))
      ∙ ap (λ d. record s { scanned_products_for_order = d }) (insert-insert order_id _ _ _)
