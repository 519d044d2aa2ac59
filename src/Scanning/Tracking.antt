-- ===== src/Scanning/Tracking.antt =====
-- The data that the session of a scanner keeps (magazyn/services/scanning.py). A value of the session
-- is kept as `int`, `float` and `str` read it, none where they raise, or where it is false. A Counter
-- is a list of keys with their counts, a set a list of its elements; in what order is not observed.
use retrievershop_suite.Prelude.{
  ℕ, ◌+◌, ◌==◌, min, String, Option, none, some, List, [], ◌∷◌, Bool, true, false, if◌then◌else◌,
  str_eq, mem_text, is_truthy, get_or, ltb, sum_by,
}
use retrievershop_suite.Prelude.Int.{ℤ, pos, negsuc}
use Prim.Native.String.{◌++◌ as text_append}

abbrev pub Counter : Type 0
Counter = List (ℕ × ℕ)

pub record ProductScan : Type 0 where
  pub scan_key : Option String
  pub barcode : Option String
  pub product_size_text : Option String
  pub timestamp_text : Option String
  pub product_size_id : Option ℤ
  -- 0 for a missing value
  pub timestamp : Option ℕ

pub record LabelScan : Type 0 where
  -- without blanks around it
  pub order_id : Option String
  pub timestamp : Option ℕ

-- The value kept for an order: the dict with "counts" and "scan_keys", the list of older sessions, or
-- something else.
pub data Tracking : Type 0 where
  tracked : List (Option ℤ × Option ℤ) → List String → Tracking
  listed : List (Option ℤ) → Tracking
  unreadable : Tracking

pub record ScanState : Type 0 where
  pub last_product_scan : Option ProductScan
  pub last_label_scan : Option LabelScan
  pub scanned_products_for_order : List (String × Tracking)

-- The columns of an ordered product that packing reads.
pub record OrderedProduct : Type 0 where
  pub order_id : String
  pub product_size_id : Option ℤ
  pub quantity : Option ℤ

abbrev pub positive : ℕ → Option ℕ
positive n = if ltb 0 n then some n else none

unfoldable pub to_positive_int : Option ℤ → Option ℕ
to_positive_int none = none
to_positive_int (some (pos n)) = positive n
to_positive_int (some (negsuc n)) = none

-- `counts.get(k, 0)`
unfoldable pub count_of : ℕ → Counter → ℕ
count_of k [] = 0
count_of k ((j, n) ∷ c) = if j == k then n else count_of k c

-- `k in counts`
unfoldable pub has_key : ℕ → Counter → Bool
has_key k [] = false
has_key k ((j, n) ∷ c) = if j == k then true else has_key k c

abbrev pub raise_count : ℕ → ℕ → Counter → Counter
raise_count k n [] = []
raise_count k n ((j, i) ∷ c) = if j == k then (j, i + n) ∷ c else (j, i) ∷ raise_count k n c

-- `counts[k] += n`
unfoldable pub add_count : ℕ → ℕ → Counter → Counter
unfolding has_key
add_count k n c = if has_key k c then raise_count k n c else (k, n) ∷ c

-- `keys.add(k)`
abbrev pub add_key : String → List String → List String
add_key k keys = if mem_text k keys then keys else k ∷ keys

unfoldable pub add_read : Option ℕ → Option ℕ → Counter → Counter
unfolding add_count
add_read (some k) (some n) c = add_count k n c
add_read (some k) none c = c
add_read none n c = c

unfoldable pub required_product_counts : List OrderedProduct → Counter
unfolding to_positive_int add_read
required_product_counts [] = []
required_product_counts (x ∷ xs) =
    add_read (to_positive_int x.product_size_id) (some (get_or (to_positive_int x.quantity) 1))
      (required_product_counts xs)

unfoldable pub read_counts : List (Option ℤ × Option ℤ) → Counter
unfolding to_positive_int add_read
read_counts [] = []
read_counts ((k, n) ∷ items) = add_read (to_positive_int k) (to_positive_int n) (read_counts items)

unfoldable pub read_keys : List String → List String
read_keys [] = []
read_keys (k ∷ keys) = let rest = read_keys keys in if str_eq k "" then rest else add_key k rest

unfoldable pub read_list : List (Option ℤ) → Counter
unfolding to_positive_int add_read
read_list [] = []
read_list (k ∷ ks) = add_read (to_positive_int k) (some 1) (read_list ks)

unfoldable pub normalize_order_tracking : Option Tracking → Counter × List String
unfolding read_counts read_keys read_list
normalize_order_tracking (some (tracked counts keys)) = (read_counts counts, read_keys keys)
normalize_order_tracking (some (listed ks)) = (read_list ks, [])
normalize_order_tracking (some unreadable) = ([], [])
normalize_order_tracking none = ([], [])

unfoldable pub write_counts : Counter → List (Option ℤ × Option ℤ)
write_counts [] = []
write_counts ((k, n) ∷ c) =
    let rest = write_counts c in if ltb 0 n then (some (pos k), some (pos n)) ∷ rest else rest

unfoldable pub serialize_order_tracking : Counter → List String → Tracking
unfolding write_counts
serialize_order_tracking c keys = tracked (write_counts c) keys

unfoldable pub product_scan_key : ProductScan → String
product_scan_key p =
    if is_truthy p.scan_key
    then get_or p.scan_key ""
    else text_append (get_or p.barcode "") (
        text_append ":" (
          text_append (get_or p.product_size_text "")
            (text_append ":" (get_or p.timestamp_text ""))))

unfoldable pub matched_scan_total : Counter → Counter → ℕ
unfolding count_of
matched_scan_total required scanned = sum_by (λ e. min (count_of e.0 scanned) e.1) required
