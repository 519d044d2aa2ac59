-- ===== src/Stock/Rows.antt =====
-- The rows of magazyn/models/products.py, and the tables the stock operations work on.
use retrievershop_suite.Prelude.{ℕ, String, Option, List, Bool, ◌==◌, ◌&&◌, str_eq}

-- `stock_value` is a column Numeric(12, 2), kept here in grosze.
pub record ProductSize : Type 0 where
  pub id : ℕ
  pub product_id : ℕ
  pub size : String
  pub quantity : ℕ
  pub stock_value : ℕ
  pub barcode : Option String
  pub woo_variation_id : Option ℕ

pub record PurchaseBatch : Type 0 where
  pub product_id : ℕ
  pub size : String
  pub quantity : ℕ
  pub price : ℕ
  pub purchase_date : String
  pub barcode : Option String
  pub invoice_number : Option String
  pub supplier : Option String
  pub notes : Option String

pub record Sale : Type 0 where
  pub product_id : ℕ
  pub size : String
  pub quantity : ℕ
  pub sale_date : String
  pub purchase_cost : ℕ
  pub sale_price : ℕ
  pub shipping_cost : ℕ
  pub commission_fee : ℕ
  pub order_id : Option String
  pub quantity_returned : ℕ

pub record Product : Type 0 where
  pub id : ℕ
  pub name : String

-- What the alert names: the product, or the number of one that is gone.
pub data AlertName : Type 0 where
  named : String → AlertName
  numbered : ℕ → AlertName

-- The tables, sales in the order of their ids, and the calls to the outside, oldest first: the
-- stock levels pushed to the shop, and the low-stock alerts.
pub record Db : Type 0 where
  pub products : List Product
  pub product_sizes : List ProductSize
  pub purchase_batches : List PurchaseBatch
  pub sales : List Sale
  pub pushes : List (ℕ × ℕ)
  pub alerts : List (AlertName × String × ℕ)

abbrev pub is_at : ℕ → String → ProductSize → Bool
is_at product_id size ps = ps.product_id == product_id && str_eq ps.size size
