-- ===== src/Witnesses/Editing.antt =====
-- A scarf in M that is exchanged for one in L (magazyn/services/order_item_edit.py).
use retrievershop_suite.Prelude.{◌≡◌, refl, none, some, [], ◌∷◌, true, false}
use retrievershop_suite.OrderStatus.Service.{last_status}
use retrievershop_suite.Decimal.{of_int}
use retrievershop_suite.Cancel.Order.{current_order_status}
use retrievershop_suite.ItemEdit.Variant.{
  EditDb, EditOutside, edited, can_edit_order_items, same_family, find_variant,
  order_has_consumed_stock, edit_tables, edit_variants, edit_item, edit_order_item_variant,
}
use retrievershop_suite.ItemEdit.Effects.{Edits, edit_order_item_variant-Edits}
use retrievershop_suite.Witnesses.Warehouse.{column}

abbrev shop : EditOutside
shop = record {
  commission_allegro = of_int 10;
  calculate_shipping = λ price. of_int 9;
  sale_date = "2026-01-01";
  threshold = 0;
  column = column;
}

abbrev counter : EditDb
counter = record {
  items =
      record {
        id = 1;
        order_id = "o1";
        product_size_id = some 1;
        ean = some "590";
        name = none;
        quantity = some 1;
        price_brutto = some 5000;
      }
      ∷ [];
  catalog =
      record {
        id = 1;
        name = "Szal";
        color = "czarny";
        category = "szale";
        brand = "truelove";
        series = "front";
      }
      ∷ [];
  orders = record {
    orders =
        record {
          order_id = "o1";
          email = none;
          courier_code = none;
          delivery_package_nr = none;
          emails_sent = [];
        }
        ∷ [];
    logs =
        record {
          order_id = "o1";
          status = "wydrukowano";
          tracking_number = none;
          courier_code = none;
          notes = none;
          timestamp = 3;
        }
        ∷ [];
    outbox = [];
  };
  stock = record {
    products = [];
    product_sizes =
        record {
          id = 1;
          product_id = 1;
          size = "M";
          quantity = 2;
          stock_value = 1000;
          barcode = some "590";
          woo_variation_id = none;
        }
        ∷ record {
          id = 2;
          product_id = 1;
          size = "L";
          quantity = 2;
          stock_value = 1000;
          barcode = some "591";
          woo_variation_id = none;
        }
        ∷ [];
    purchase_batches = [];
    sales = [];
    pushes = [];
    alerts = [];
  };
  locally_edited = [];
}

-- Nothing of the order was sold yet, so no piece moves.
exchanged :
    (edit_order_item_variant shop (λ db order_id status. db) 9 "o1" true counter 1 2).1
    ≡ edited false false
unfolding edit_order_item_variant edit_item edit_variants edit_tables find_variant same_family
    order_has_consumed_stock can_edit_order_items current_order_status last_status
exchanged = refl

-- The scarf of the line was sold from stock.
abbrev sold_counter : EditDb
sold_counter = record counter {
  stock = record (counter.stock) {
    sales =
        record {
          product_id = 1;
          size = "M";
          quantity = 1;
          sale_date = "2026-01-01";
          purchase_cost = 500;
          sale_price = 5000;
          shipping_cost = 900;
          commission_fee = 500;
          order_id = some "o1";
          quantity_returned = 0;
        }
        ∷ [];
  };
}

exchanged_after_sale :
    (edit_order_item_variant shop (λ db order_id status. db) 9 "o1" true sold_counter 1 2).1
    ≡ edited true true
unfolding edit_order_item_variant edit_item edit_variants edit_tables find_variant same_family
    order_has_consumed_stock can_edit_order_items current_order_status last_status
exchanged_after_sale = refl

edit_order_item_variant-Edits_example :
    Edits shop "o1" 1 2 true sold_counter
      (edit_order_item_variant shop (λ db order_id status. db) 9 "o1" true sold_counter 1 2)
edit_order_item_variant-Edits_example =
    edit_order_item_variant-Edits shop (λ db order_id status. db) 9 "o1" true sold_counter 1 2
