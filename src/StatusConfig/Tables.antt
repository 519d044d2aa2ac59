-- ===== src/StatusConfig/Tables.antt =====
-- magazyn/status_config.py, table by table.
use retrievershop_suite.Prelude.{ℕ, String, Option, none, some, List, [], ◌∷◌, lookup}

abbrev pub valid_statuses : List String
valid_statuses =
    "pobrano" ∷ "nieoplacone" ∷ "wydrukowano" ∷ "spakowano" ∷ "wyslano" ∷ "w_transporcie"
    ∷ "w_punkcie" ∷ "dostarczono" ∷ "blad_druku" ∷ "problem_z_dostawa" ∷ "zwrot" ∷ "nieodebrano"
    ∷ "anulowano" ∷ []

-- The rank of the statuses that may be set from any other.
abbrev pub problem_rank : ℕ
problem_rank = 999

abbrev pub status_hierarchy : List (String × ℕ)
status_hierarchy =
    ("pobrano", 0)
    ∷ ("nieoplacone", 0)
    ∷ ("wydrukowano", 2)
    ∷ ("spakowano", 3)
    ∷ ("wyslano", 4)
    ∷ ("w_transporcie", 5)
    ∷ ("w_punkcie", 6)
    ∷ ("dostarczono", 7)
    ∷ ("blad_druku", 999)
    ∷ ("problem_z_dostawa", 999)
    ∷ ("zwrot", 999)
    ∷ ("nieodebrano", 999)
    ∷ ("anulowano", 999)
    ∷ []

-- `STATUS_HIERARCHY.get(status)`
unfoldable pub status_rank : String → Option ℕ
status_rank status = lookup status status_hierarchy

abbrev pub allegro_tracking_map : List (String × Option String)
allegro_tracking_map =
    ("CREATED", none)
    ∷ ("SENT", none)
    ∷ ("LABEL_CREATED", none)
    ∷ ("COLLECTED", some "wyslano")
    ∷ ("PICKED_UP_BY_CARRIER", some "wyslano")
    ∷ ("IN_TRANSIT", some "wyslano")
    ∷ ("OUT_FOR_DELIVERY", some "w_transporcie")
    ∷ ("AT_PICKUP_POINT", some "w_punkcie")
    ∷ ("READY_TO_PICKUP", some "w_punkcie")
    ∷ ("PICKUP_REMINDER", some "w_punkcie")
    ∷ ("AVIZO", some "w_punkcie")
    ∷ ("DELIVERED", some "dostarczono")
    ∷ ("PICKED_UP", some "dostarczono")
    ∷ ("NOT_DELIVERED", some "problem_z_dostawa")
    ∷ ("LOST", some "problem_z_dostawa")
    ∷ ("FAILED_DELIVERY", some "problem_z_dostawa")
    ∷ ("RETURNED", some "zwrot")
    ∷ ("RETURNED_TO_SENDER", some "zwrot")
    ∷ ("CANCELLED", some "anulowano")
    ∷ ("OTHER", none)
    ∷ []

abbrev pub allegro_order_status_map : List (String × Option String)
allegro_order_status_map =
    ("BOUGHT", some "pobrano")
    ∷ ("FILLED_IN", some "pobrano")
    ∷ ("READY_FOR_PROCESSING", some "pobrano")
    ∷ ("CANCELLED", some "anulowano")
    ∷ []

abbrev pub allegro_fulfillment_map : List (String × Option String)
allegro_fulfillment_map =
    ("NEW", some "pobrano")
    ∷ ("PROCESSING", none)
    ∷ ("READY_FOR_SHIPMENT", none)
    ∷ ("SENT", some "wyslano")
    ∷ ("PICKED_UP", some "dostarczono")
    ∷ ("CANCELLED", some "anulowano")
    ∷ []

abbrev pub shipment_tracking_map : List (String × Option String)
shipment_tracking_map =
    ("PENDING", none)
    ∷ ("IN_TRANSIT", some "wyslano")
    ∷ ("RELEASED_FOR_DELIVERY", some "w_transporcie")
    ∷ ("AVAILABLE_FOR_PICKUP", some "w_punkcie")
    ∷ ("NOTICE_LEFT", some "w_punkcie")
    ∷ ("DELIVERED", some "dostarczono")
    ∷ ("RETURNED", some "zwrot")
    ∷ ("ISSUE", some "problem_z_dostawa")
    ∷ []

abbrev pub status_email_map : List (String × String)
status_email_map =
    ("pobrano", "confirmation") ∷ ("wyslano", "shipment") ∷ ("dostarczono", "delivery") ∷ []

abbrev pub customer_stage_map : List (String × ℕ)
customer_stage_map =
    ("pobrano", 0)
    ∷ ("nieoplacone", 0)
    ∷ ("wydrukowano", 1)
    ∷ ("blad_druku", 1)
    ∷ ("spakowano", 1)
    ∷ ("wyslano", 2)
    ∷ ("w_transporcie", 2)
    ∷ ("w_punkcie", 3)
    ∷ ("dostarczono", 3)
    ∷ []

abbrev pub status_filter_groups : List (String × List String)
status_filter_groups =
    ("w_realizacji", "pobrano" ∷ "nieoplacone" ∷ "wydrukowano" ∷ "blad_druku" ∷ "spakowano" ∷ [])
    ∷ ("w_transporcie", "wyslano" ∷ "w_transporcie" ∷ "w_punkcie" ∷ [])
    ∷ ("zakonczone", "dostarczono" ∷ [])
    ∷ ("problem", "problem_z_dostawa" ∷ "zwrot" ∷ "nieodebrano" ∷ "anulowano" ∷ [])
    ∷ []
