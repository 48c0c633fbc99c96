-- ===== src/Tests/Pages.antt =====
-- The pages of provena-web/src on concrete inputs: an order, the catalogue, lists.
use provena.Base.{ℕ, String, true, false, Option, none, some, [], ◌∷◌, inl, refl, All}
use provena.Types.Order.{
  delivered, refunding, OrderReturn, OrderItem, SubOrder, returnable, supplier_ship,
}
use provena.Orders.Forms.{more, no_return, open_return, selected_return_items}
use provena.Orders.Forms.Quantities.{Asked, selected_return_items-run}
use provena.Orders.Forms.Quantities as Rows
use provena.Cart.{get, handle_add_to_cart, cart_count, Group, group_by_supplier}
use provena.Cart

abbrev item : OrderItem
item = record {
  id = "i1";
  product_name = "Tea";
  variant_name = "100 g";
  sku = "T1";
  quantity = 3;
  unit_price = "5.00";
  total_price = "15.00";
  return_policy = returnable;
  is_returnable = true;
}

abbrev one_back : OrderReturn
one_back = record {
  id = "r1";
  sub_order_id = "s1";
  order_reference = "PRV-1";
  supplier_name = "Teas";
  reason = "broken";
  status = refunding;
  supplier_notes = "";
  refund_amount = none;
  items =
      record { id = "ri1"; order_item_id = "i1"; sku = "T1"; product_name = "Tea"; quantity = 1 }
      ∷ [];
  raised_by_email = none;
  created_at = "";
  updated_at = "";
}

-- A delivered part of an order with three units of one item, of which one was sent back.
abbrev part : SubOrder
part = record {
  id = "s1";
  supplier_name = "Teas";
  supplier_slug = "teas";
  supplier_vat_number = "";
  status = delivered;
  goods_subtotal = "15.00";
  discount_amount = "0.00";
  shipping_amount = "0.00";
  vat_amount = "3.00";
  subtotal = "18.00";
  fulfilment_mode = supplier_ship;
  tracking_number = "";
  delivered_at = some "1000";
  courier = none;
  items = item ∷ [];
  disputes = [];
  returns = one_back ∷ [];
  created_at = "";
  updated_at = "";
}

abbrev pub parse : String → Option ℕ
parse text = some 1000

selected_return_items_example : All (Asked part) (
    selected_return_items
      (Rows.run part (open_return ∷ more item ∷ more item ∷ more item ∷ []) no_return))
selected_return_items_example =
    selected_return_items-run part (open_return ∷ more item ∷ more item ∷ more item ∷ [])
      (tt, (inl refl, (inl refl, (inl refl, tt))))

abbrev pub visitor : Cart.Page
visitor = record { user = false; local_cart = ("tea", 2) ∷ ("jam", 1) ∷ []; mutations = [] }

-- The same part, with its return decided.
abbrev decided : SubOrder
decided = record part { returns = [] }
