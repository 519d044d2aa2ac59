-- ===== src/Refund/Rows.antt =====
-- What magazyn/services/return_refunds.py reads of an order, and what it calls. Amounts of the
-- columns are grosze; the answers of the services are texts, taken apart by functions of the
-- outside.
use text.Mathlib.Text.{starts_with}
use retrievershop_suite.Prelude.{
  ℕ, ◌+◌, ◌-◌, String, Option, none, some, List, [], ◌∷◌, Bool, not, ◌&&◌, ◌||◌, leb, ◌==◌,
  if◌then◌else◌, mem_text, is_truthy, get_or,
}
use retrievershop_suite.Decimal.{Decimal, of_int, mul, add, quantize}
use retrievershop_suite.Returns.Rows.{Return}

pub record RefundOrder : Type 0 where
  pub order_id : String
  pub external_order_id : Option String
  -- what `_is_cod_order` and `classify_woo_payment_method` say of the payment method
  pub is_cod : Bool
  pub is_woo_cod : Bool
  pub delivery_price : Option ℕ
  pub payment_done : Option ℕ

-- An answer of a service, or its error.
pub data Answer : Type 0 where
  failed answered : String → Answer

pub record AllegroRefund : Type 0 where
  pub return_id : Option String
  pub order_external_id : String
  pub line_items : Option String
  pub delivery_cost_covered : Bool
  pub reason : Option String

-- A price with its quantity.
pub record PricedItem : Type 0 where
  pub unit : Decimal
  pub qty : ℕ

pub record RefundOutside : Type 0 where
  pub has_access_token : Bool
  pub get_checkout_form : String → Answer
  -- whether the settlement of the checkout data is "pending"
  pub is_settlement_pending : String → Bool
  pub get_customer_return : String → Answer
  -- the items of a customer return, and those of `items_json`: none where there are none
  pub return_items : String → Option String
  pub load_items : Option String → Option String
  pub priced_items : Option String → List PricedItem
  pub build_partial_refund_details : String → String → Bool → Answer
  pub initiate_refund : AllegroRefund → Bool × String
  pub is_cod_not_paid_error : String → Bool
  pub validate_return_for_refund : String → Bool
  pub create_order_refund : String → ℕ → String → Bool

-- The calls that move money, with whether the service accepted them, and the orders of corrections.
pub data MoneyCall : Type 0 where
  allegro_refund : AllegroRefund → Bool → MoneyCall
  woo_refund : String → ℕ → Bool → MoneyCall
  bank_transfer : String → ℕ → MoneyCall
  generate_correction_invoice : String → Bool → MoneyCall

unfoldable pub is_woo_order : String → Bool
is_woo_order order_id = starts_with order_id "woo_"

-- The texts that `upper` takes to "WOO".
abbrev pub woo_spellings : List String
woo_spellings = "WOO" ∷ "WOo" ∷ "WoO" ∷ "Woo" ∷ "wOO" ∷ "wOo" ∷ "woO" ∷ "woo" ∷ []

unfoldable pub is_woo_return : Return → Bool
is_woo_return r =
    is_truthy r.woo_withdrawal_id || mem_text (get_or r.return_carrier "") woo_spellings

unfoldable pub is_manual_return : Return → Bool
unfolding is_woo_return
is_manual_return r = not (is_woo_return r) && not (is_truthy r.allegro_return_id)

unfoldable pub sum_items : Decimal → List PricedItem → Decimal
sum_items total [] = total
sum_items total (item ∷ items) = sum_items (add total (mul item.unit item.qty)) items

unfoldable pub amount_from_return_items : RefundOutside → Return → ℕ
unfolding sum_items
amount_from_return_items out r = quantize (sum_items (of_int 0) (out.priced_items r.items_json))

-- `total_paid - delivery` where it is not negative.
abbrev pub paid_items : Bool → ℕ → ℕ → ℕ
paid_items include_delivery total_paid delivery =
    if include_delivery
    then (if leb delivery total_paid then total_paid - delivery else total_paid)
    else total_paid

unfoldable pub woo_items_amount : ℕ → Bool → RefundOrder → ℕ
woo_items_amount items include_delivery order = elim order.payment_done [
  | none ↦ items
  | some total_paid ↦
      if items == 0
      then paid_items include_delivery total_paid (get_or order.delivery_price 0)
      else items
]

-- The total of `_woo_refund_amount`.
unfoldable pub woo_refund_amount : RefundOutside → RefundOrder → Return → Bool → ℕ
unfolding amount_from_return_items woo_items_amount
woo_refund_amount out order r include_delivery =
    let items = woo_items_amount (amount_from_return_items out r) include_delivery order in
    if include_delivery then items + get_or order.delivery_price 0 else items
