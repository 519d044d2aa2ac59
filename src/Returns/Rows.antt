-- ===== src/Returns/Rows.antt =====
-- The rows of magazyn/models/returns.py and the statuses of magazyn/domain/returns.py.
use retrievershop_suite.Prelude.{
  ℕ, String, Option, List, [], ◌∷◌, Bool, ◌==◌, lookup_or, update_where,
}
use retrievershop_suite.Prelude.Int.{ℤ}
use retrievershop_suite.OrderStatus.Rows as OrderRows
use retrievershop_suite.Stock.Rows as StockRows

abbrev pub return_status_pending : String
return_status_pending = "pending"

abbrev pub return_status_in_transit : String
return_status_in_transit = "in_transit"

abbrev pub return_status_delivered : String
return_status_delivered = "delivered"

abbrev pub return_status_not_collected : String
return_status_not_collected = "not_collected"

abbrev pub return_status_completed : String
return_status_completed = "completed"

abbrev pub return_status_cancelled : String
return_status_cancelled = "cancelled"

abbrev pub allegro_return_status_map : List (String × String)
allegro_return_status_map =
    ("CREATED", return_status_pending)
    ∷ ("WAITING_FOR_PARCEL", return_status_pending)
    ∷ ("DISPATCHED", return_status_in_transit)
    ∷ ("PARCEL_IN_TRANSIT", return_status_in_transit)
    ∷ ("PARCEL_DELIVERED", return_status_delivered)
    ∷ ("DELIVERED", return_status_delivered)
    ∷ ("ACCEPTED", return_status_delivered)
    ∷ ("COMMISSION_REFUNDED", return_status_completed)
    ∷ ("FINISHED", return_status_completed)
    ∷ ("REJECTED", return_status_cancelled)
    ∷ []

unfoldable pub map_allegro_return_status : String → String
map_allegro_return_status allegro_status =
    lookup_or allegro_status return_status_pending allegro_return_status_map

-- The columns that the operations modelled here read or write.
pub record Return : Type 0 where
  pub id : ℕ
  pub order_id : String
  pub status : String
  pub customer_name : Option String
  pub items_json : Option String
  pub return_tracking_number : Option String
  pub return_carrier : Option String
  pub allegro_return_id : Option String
  pub woo_withdrawal_id : Option String
  pub stock_restored : Bool
  pub refund_processed : Bool
  pub notes : Option String
  pub created_at : ℕ

pub record ReturnStatusLog : Type 0 where
  pub return_id : ℕ
  pub status : String
  pub notes : Option String

pub record OrderProduct : Type 0 where
  pub order_id : String
  pub ean : Option String
  pub auction_id : Option String

pub record AllegroOffer : Type 0 where
  pub offer_id : String
  pub product_size_id : Option ℕ

-- An item of `items_json`.
pub record ReturnItem : Type 0 where
  pub ean : Option String
  pub product_size_id : Option ℕ
  pub quantity : Option ℤ
  pub name : Option String

-- What the message about restored stock says of an item.
pub record RestoredItem : Type 0 where
  pub name : Option String
  pub quantity : ℤ
  pub old_qty : ℕ

-- The tables, the log of statuses newest first, and the messages sent.
pub record Db : Type 0 where
  pub returns : List Return
  pub return_logs : List ReturnStatusLog
  pub order_products : List OrderProduct
  pub allegro_offers : List AllegroOffer
  pub orders : OrderRows.Db
  pub stock : StockRows.Db
  pub messages : List (String × List RestoredItem)

abbrev pub has_return_id : ℕ → Return → Bool
has_return_id return_id r = r.id == return_id

-- An assignment to the columns of one return.
abbrev pub put_return : ℕ → (Return → Return) → Db → Db
put_return return_id f db = record db {
  returns = update_where (has_return_id return_id) f db.returns;
}
