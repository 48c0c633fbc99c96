-- ===== src/Checkout/View.antt =====
-- What provena-web/src/app/checkout/page.tsx shows.
use provena.Base.{
  String, Bool, true, false, ◌||◌, not, Option, none, some, List, [], ◌∷◌, ◌++◌, ◌<>◌, ◌==◌, nat_eq,
  is_blank, is_empty, length, if◌then◌else◌,
}
use provena.Types.Order.{CartItem, DiscountValidateResult}
use provena.Types.Address.{Address}
use provena.Markup.{Part, text, number, link, button, field, when}
use provena.Orders.Forms.{blank_trimmed}
use provena.Checkout.{
  Page, ShippingForm, Screen, login, loading_cart, empty_cart, payment, shipping,
}

unfoldable pub summary_rows : List CartItem → List Part
summary_rows [] = []
summary_rows (i ∷ items) =
    text i.product_name
    ∷ text i.variant_name
    ∷ number i.quantity
    ∷ text ("£" <> i.subtotal)
    ∷ summary_rows items

unfoldable pub order_summary : List CartItem → String → List Part
unfolding summary_rows
order_summary items total =
    text "Order summary"
      ∷ number (length items)
      ∷ text (if length items == 1 then "item" else "items")
      ∷ summary_rows items
    ++ text "Subtotal" ∷ text ("£" <> total) ∷ text "Excl. shipping & VAT" ∷ []

-- A saved address, with its radio button.
unfoldable pub address_parts : Address → List Part
address_parts addr =
    button "saved_address" false
      ∷ text addr.full_name
      ∷ when (not (is_blank addr.label)) (text addr.label ∷ [])
    ++ when addr.is_default (text "Default" ∷ [])
    ++ text addr.line1 ∷ when (not (is_blank addr.line2)) (text (", " <> addr.line2) ∷ [])
    ++ text (", " <> addr.city) ∷ text (", " <> addr.postcode) ∷ []

unfoldable pub addresses_parts : List Address → List Part
unfolding address_parts
addresses_parts [] = button "Enter a different address" false ∷ []
addresses_parts (addr ∷ addresses) = address_parts addr ++ addresses_parts addresses

is_none : Option String → Bool
is_none none = true
is_none (some s) = false

unfoldable pub address_fields : ShippingForm → List Part
address_fields f =
    field "Full name" f.name
    ∷ field "Address line 1" f.line1
    ∷ field "Address line 2" f.line2
    ∷ field "City" f.city
    ∷ field "Postcode" f.postcode
    ∷ field "Country" f.country
    ∷ []

new_total : Option String → List Part
new_total none = []
new_total (some total) = if is_blank total then [] else text (", new total £" <> total) ∷ []

or_nothing : Option String → String
or_nothing none = ""
or_nothing (some s) = s

unfoldable pub discount_parts : Option DiscountValidateResult → List Part
unfolding new_total or_nothing
discount_parts none = []
discount_parts (some r) =
    if r.valid
    then text ("Code applied: £" <> or_nothing r.discount_amount <> " off") ∷ new_total r.new_total
      ++ text ". Charged at the next step." ∷ []
    else text (or_nothing r.reason) ∷ []

error_parts : Option String → List Part
error_parts none = []
error_parts (some e) = if is_blank e then [] else text e ∷ []

unfoldable pub shipping_view : Bool → List Address → Page → List Part
unfolding addresses_parts address_fields discount_parts error_parts is_none
shipping_view validating saved p =
    text "Shipping address" ∷ when (not (is_empty saved)) (addresses_parts saved)
    ++ when (is_empty saved || is_none p.selected_address_id) (address_fields p.form)
    ++ field "Order notes (optional)" p.form.notes
      ∷ field "Discount code (optional)" p.discount_code
      ∷ button (if validating then "Checking…" else "Apply")
          (blank_trimmed p.discount_code || validating)
      ∷ discount_parts p.discount_result
    ++ error_parts p.error
    ++ button (if p.is_pending then "Preparing order…" else "Continue to payment") p.is_pending
      ∷ text "Shipping, VAT and any discount are calculated on the next step."
      ∷ []

-- The page by its screen; `payment_parts` is what the payment step shows.
unfoldable pub screen_view :
    Screen → List Part → Bool → List Address → List CartItem → String → Page → List Part
unfolding shipping_view order_summary
screen_view login payment_parts validating saved items total p = []
screen_view loading_cart payment_parts validating saved items total p =
    link "/catalogue" "Back to catalogue" ∷ text "Checkout" ∷ text "Loading cart…" ∷ []
screen_view empty_cart payment_parts validating saved items total p =
    link "/catalogue" "Back to catalogue"
    ∷ text "Checkout"
    ∷ text "Your cart is empty."
    ∷ link "/catalogue" "Browse the catalogue"
    ∷ []
screen_view payment payment_parts validating saved items total p =
    link "/catalogue" "Back to catalogue" ∷ text "Checkout" ∷ payment_parts
    ++ order_summary items total
screen_view shipping payment_parts validating saved items total p =
    link "/catalogue" "Back to catalogue" ∷ text "Checkout" ∷ shipping_view validating saved p
    ++ order_summary items total
