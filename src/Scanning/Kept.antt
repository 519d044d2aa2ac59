-- ===== src/Scanning/Kept.antt =====
-- The session gives back what was written to it (magazyn/services/scanning.py).
use retrievershop_suite.Prelude.{◌≡◌, refl, String, some, List, [], ◌∷◌, lt→ltb}
use retrievershop_suite.Scanning.Tracking.{
  Counter, to_positive_int, add_count, add_read, read_counts, read_keys, normalize_order_tracking,
  write_counts, serialize_order_tracking,
}
use retrievershop_suite.Scanning.Counters.{IsCounter, IsKeySet, IsTracked}

read_counts-write_counts : (c : Counter) → IsCounter c → read_counts (write_counts c) ≡ c
unfolding read_counts write_counts IsCounter to_positive_int add_count add_read
read_counts-write_counts [] h = refl
read_counts-write_counts ((k, n) ∷ c) h =
    rw (lt→ltb 0 n h.1, lt→ltb 0 k h.0, read_counts-write_counts c h.3, lt→ltb 0 n h.1, h.2) refl

read_keys-same : (keys : List String) → IsKeySet keys → read_keys keys ≡ keys
unfolding read_keys IsKeySet
read_keys-same [] h = refl
read_keys-same (k ∷ keys) h = rw (h.0, read_keys-same keys h.2, h.1) refl

-- Reading back what _serialize_order_tracking writes gives the same counts and the same keys, for
-- positive counts of distinct products and distinct keys that are not empty.
pub normalize-serialize :
    (c : Counter) (keys : List String)
    → IsTracked (c, keys)
    → normalize_order_tracking (some (serialize_order_tracking c keys)) ≡ (c, keys)
unfolding normalize_order_tracking serialize_order_tracking
normalize-serialize c keys h = rw (read_counts-write_counts c h.0, read_keys-same keys h.1) refl
