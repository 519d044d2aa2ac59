-- ===== src/Scanning/Counters.antt =====
-- What the session reads back of an order is a Counter of positive counts and a set of keys
-- (magazyn/services/scanning.py).
use retrievershop_suite.Prelude.{
  ℕ, ◌<◌, ◌==◌, ◌≡◌, refl, arith, String, Option, none, some, List, [], ◌∷◌, false, inl, inr,
  Bool-cases, str_eq, mem_text, ltb, ltb→lt,
}
use retrievershop_suite.Prelude.Int.{ℤ, pos, negsuc}
use retrievershop_suite.Scanning.Tracking.{
  Counter, ProductScan, Tracking, tracked, listed, unreadable, to_positive_int, positive, has_key,
  raise_count, add_count, add_key, add_read, read_counts, read_keys, read_list,
  normalize_order_tracking, product_scan_key,
}
use retrievershop_suite.Scanning.Pack.{count_scan}

-- Distinct positive keys with positive counts.
unfoldable pub IsCounter : Counter → Type 0
IsCounter [] = Unit
IsCounter ((k, n) ∷ c) = (0 < k) × (0 < n) × (has_key k c ≡ false) × IsCounter c

-- Distinct keys, none of them empty.
unfoldable pub IsKeySet : List String → Type 0
IsKeySet [] = Unit
IsKeySet (k ∷ keys) = (str_eq k "" ≡ false) × (mem_text k keys ≡ false) × IsKeySet keys

has_key-raise_count : (j k n : ℕ) (c : Counter) → has_key j (raise_count k n c) ≡ has_key j c
unfolding has_key
has_key-raise_count j k n [] = refl
has_key-raise_count j k n ((i, m) ∷ c) = elim (Bool-cases (i == k)) [
  | inl t ↦ rw t refl
  | inr u ↦ rw (u, has_key-raise_count j k n c) refl
]

raise_count-IsCounter : (k n : ℕ) (c : Counter) → IsCounter c → IsCounter (raise_count k n c)
unfolding IsCounter
raise_count-IsCounter k n [] h = tt
raise_count-IsCounter k n ((i, m) ∷ c) h = elim (Bool-cases (i == k)) [
  | inl t ↦ rw t (h.0, omega (arith, h.1), h.2, h.3)
  | inr u ↦ rw u (h.0, h.1, rw (has_key-raise_count i k n c) h.2, raise_count-IsCounter k n c h.3)
]

pub add_count-IsCounter :
    (k n : ℕ) (c : Counter) → 0 < k → 0 < n → IsCounter c → IsCounter (add_count k n c)
unfolding add_count IsCounter
add_count-IsCounter k n c p q h = elim (Bool-cases (has_key k c)) [
  | inl t ↦ rw t (raise_count-IsCounter k n c h)
  | inr u ↦ rw u (p, q, u, h)
]

abbrev Positive : Option ℕ → Type 0
Positive none = Unit
Positive (some n) = 0 < n

positive-Positive : (n : ℕ) → Positive (positive n)
positive-Positive n = elim (Bool-cases (ltb 0 n)) [ inl t ↦ rw t (ltb→lt 0 n t) | inr u ↦ rw u tt ]

to_positive_int-Positive : (z : Option ℤ) → Positive (to_positive_int z)
unfolding to_positive_int
to_positive_int-Positive none = tt
to_positive_int-Positive (some (pos n)) = positive-Positive n
to_positive_int-Positive (some (negsuc n)) = tt

add_read-IsCounter :
    (k n : Option ℕ) (c : Counter)
    → Positive k
    → Positive n
    → IsCounter c
    → IsCounter (add_read k n c)
unfolding add_read
add_read-IsCounter none n c p q h = h
add_read-IsCounter (some k) none c p q h = h
add_read-IsCounter (some k) (some n) c p q h = add_count-IsCounter k n c p q h

read_counts-IsCounter : (items : List (Option ℤ × Option ℤ)) → IsCounter (read_counts items)
unfolding read_counts IsCounter
read_counts-IsCounter [] = tt
read_counts-IsCounter ((k, n) ∷ items) =
    add_read-IsCounter (to_positive_int k) (to_positive_int n) (read_counts items)
      (to_positive_int-Positive k) (to_positive_int-Positive n) (read_counts-IsCounter items)

read_list-IsCounter : (ks : List (Option ℤ)) → IsCounter (read_list ks)
unfolding read_list IsCounter
read_list-IsCounter [] = tt
read_list-IsCounter (k ∷ ks) =
    add_read-IsCounter (to_positive_int k) (some 1) (read_list ks) (to_positive_int-Positive k)
      (omega arith) (read_list-IsCounter ks)

add_key-IsKeySet :
    (k : String) (keys : List String)
    → str_eq k "" ≡ false
    → IsKeySet keys
    → IsKeySet (add_key k keys)
unfolding IsKeySet
add_key-IsKeySet k keys e h = elim (Bool-cases (mem_text k keys)) [
  | inl t ↦ rw t h
  | inr u ↦ rw u (e, u, h)
]

read_keys-IsKeySet : (keys : List String) → IsKeySet (read_keys keys)
unfolding read_keys IsKeySet
read_keys-IsKeySet [] = tt
read_keys-IsKeySet (k ∷ keys) = elim (Bool-cases (str_eq k "")) [
  | inl t ↦ rw t (read_keys-IsKeySet keys)
  | inr u ↦ rw u (add_key-IsKeySet k (read_keys keys) u (read_keys-IsKeySet keys))
]

-- The counts and the keys of an order.
abbrev pub IsTracked : Counter × List String → Type 0
IsTracked t = IsCounter t.0 × IsKeySet t.1

-- Whatever the session holds for an order, what _normalize_order_tracking reads are distinct positive
-- keys with positive counts, and distinct keys of scans that are not empty.
pub normalize_order_tracking-IsTracked :
    (raw : Option Tracking) → IsTracked (normalize_order_tracking raw)
unfolding normalize_order_tracking IsCounter IsKeySet
normalize_order_tracking-IsTracked none = (tt, tt)
normalize_order_tracking-IsTracked (some (tracked counts keys)) =
    (read_counts-IsCounter counts, read_keys-IsKeySet keys)
normalize_order_tracking-IsTracked (some (listed ks)) = (read_list-IsCounter ks, tt)
normalize_order_tracking-IsTracked (some unreadable) = (tt, tt)

-- Counting a scan of a product with a key.
pub count_scan-IsTracked :
    (p : ProductScan) (k : ℕ) (t : Counter × List String)
    → 0 < k
    → str_eq (product_scan_key p) "" ≡ false
    → IsTracked t
    → IsTracked (count_scan p k t)
unfolding count_scan IsKeySet
count_scan-IsTracked p k (c, keys) pos_k e h =
    elim (Bool-cases (mem_text (product_scan_key p) keys)) [
      | inl t ↦ rw t h
      | inr u ↦ rw u (add_count-IsCounter k 1 c pos_k (omega arith) h.0, (e, u, h.1))
    ]
