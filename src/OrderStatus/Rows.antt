-- ===== src/OrderStatus/Rows.antt =====
-- The rows of magazyn/models/orders.py that the status service reads and writes.
use retrievershop_suite.Prelude.{ℕ, String, Option, List, Bool}

-- DeliveryResult of services/notification_delivery.py.
pub record DeliveryResult : Type 0 where
  pub success : Bool
  pub channel : String
  pub message_id : Option String
  pub status : Option String
  pub error : Option String

-- A value of the JSON object orders.emails_sent: a plain flag, or an object whose `sent` is a flag.
pub data SentValue : Type 0 where
  flag : Bool → SentValue
  entry : Bool → String → Option String → Option String → Option String → SentValue

pub record Order : Type 0 where
  pub order_id : String
  pub email : Option String
  pub courier_code : Option String
  pub delivery_package_nr : Option String
  pub emails_sent : List (String × SentValue)

pub record OrderStatusLog : Type 0 where
  pub order_id : String
  pub status : String
  pub tracking_number : Option String
  pub courier_code : Option String
  pub notes : Option String
  pub timestamp : ℕ

-- The tables, with the log newest first, and the calls made to the e-mail service (the order and
-- the type of e-mail), newest first.
pub record Db : Type 0 where
  pub orders : List Order
  pub logs : List OrderStatusLog
  pub outbox : List (String × String)

-- The keyword arguments of `add_order_status`.
pub record StatusDetails : Type 0 where
  pub tracking_number : Option String
  pub courier_code : Option String
  pub notes : Option String
