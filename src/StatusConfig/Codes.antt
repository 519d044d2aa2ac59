-- ===== src/StatusConfig/Codes.antt =====
-- What the tables of magazyn/status_config.py promise to the code that looks codes up in them.
use retrievershop_suite.Prelude.{
  String, ◌≡◌, refl, Option, none, some, List, [], ◌∷◌, Bool, true, ◌&&◌, arith, mem_text, lookup,
  leb, inl, inr, ◌⊎◌, lookup_or,
}
use text.Mathlib.TextEquality.{eq_iff}
use retrievershop_suite.StatusConfig.Tables.{
  valid_statuses, status_hierarchy, allegro_tracking_map, shipment_tracking_map,
}

-- `test` holds of each entry of a table.
unfoldable pub all_entries {ℓ} : {V : Type ℓ} → (String → V → Bool) → List (String × V) → Bool
all_entries test [] = true
all_entries test ((k, v) ∷ d) = test k v && all_entries test d

pub lookup-all_entries {ℓ} :
    {V : Type ℓ} (test : String → V → Bool) (k : String) (d : List (String × V)) (v : V)
    → all_entries test d ≡ true
    → lookup k d ≡ some v
    → test k v ≡ true
unfolding all_entries
lookup-all_entries test k [] v h e = cc
lookup-all_entries test k ((j, w) ∷ d) v h e =
    ground (arith, eq_iff j k, lookup-all_entries test k d v)

-- A status a carrier may report: one of the declared ones, past the stages inside the warehouse.
pub is_carrier_status : String → Bool
is_carrier_status s = mem_text s valid_statuses && leb 4 (lookup_or s 0 status_hierarchy)

abbrev ignored_or_carrier : Option String → Bool
ignored_or_carrier none = true
ignored_or_carrier (some s) = is_carrier_status s

-- Whatever code a carrier reports, under Allegro's parcel tracking or its shipment management,
-- the status it stands for is a declared one of rank 4 or more: tracking never moves an order
-- into a stage inside the warehouse (received, unpaid, printed, packed).
pub tracking_codes_past_warehouse :
    (code s : String)
    → (lookup code allegro_tracking_map ≡ some (some s))
      ⊎ (lookup code shipment_tracking_map ≡ some (some s))
    → is_carrier_status s ≡ true
unfolding all_entries is_carrier_status
tracking_codes_past_warehouse code s (inl e) =
    lookup-all_entries (λ _. ignored_or_carrier) code allegro_tracking_map (some s) refl e
tracking_codes_past_warehouse code s (inr e) =
    lookup-all_entries (λ _. ignored_or_carrier) code shipment_tracking_map (some s) refl e
