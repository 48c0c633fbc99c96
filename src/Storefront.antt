-- ===== src/Storefront.antt =====
-- provena-web/src/app/suppliers/[slug]/_client.tsx: the page of a supplier with its products.
-- Storefront/Adding is about putting them into the cart.
pub mod Adding
use Prim.Native.String.{[] as nil_text, ◌∷◌ as char_and}
use provena.Base.{
  ℕ, String, Bool, true, false, not, Option, none, some, List, [], ◌∷◌, ◌++◌, ◌<>◌, ◌==◌, nat_eq,
  is_blank, is_empty, any, length, sum_by, if◌then◌else◌, ℤ, positive?,
}
use provena.Types.Catalogue.{Product, PaginatedResponse}
use provena.Types.Order.{CartItem, Cart, platform_delivery, supplier_ship, FulfilmentMode}
use provena.Types.Supplier.{
  PublicSupplier, SupplierAddress, ShippingPolicy, flat, free_over_threshold, per_item,
}
use provena.Requests.{text as text_field}
use provena.Requests.Shop.{
  CartCall, add_to_cart, update_cart_item, remove_cart_item, CatalogueCall, get_products,
}
use provena.Goods.{star_rating, with_text}
use provena.Goods.Card.{Numbers, Card, card_view}
use provena.Browse.{toggle}
use provena.Browse.View.{cards_view}
use provena.Markup.{Part, text, number, link, when}

flat_label : (String → Bool) → String → String
flat_label is_zero rate = if is_zero rate then "Free delivery" else "£" <> rate <> " delivery"

threshold_label : (String → Bool) → String → Option String → String
unfolding flat_label
threshold_label is_zero rate none = flat_label is_zero rate
threshold_label is_zero rate (some threshold) =
    if is_blank threshold then flat_label is_zero rate else "Free delivery over £" <> threshold

policy_label : (String → Bool) → PublicSupplier → ShippingPolicy → String
unfolding flat_label threshold_label
policy_label is_zero s per_item = "£" <> s.shipping_per_item_rate <> " delivery per item"
policy_label is_zero s free_over_threshold =
    threshold_label is_zero s.shipping_flat_rate s.free_shipping_threshold
policy_label is_zero s flat = flat_label is_zero s.shipping_flat_rate

fulfilment_label : (String → Bool) → PublicSupplier → FulfilmentMode → String
unfolding policy_label
fulfilment_label is_zero s platform_delivery = "Provena delivery · £" <> s.platform_delivery_fee
fulfilment_label is_zero s supplier_ship = policy_label is_zero s s.shipping_policy

-- `is_zero` is `Number(amount) === 0`, the language's.
unfoldable pub delivery_label : (String → Bool) → PublicSupplier → String
unfolding fulfilment_label
delivery_label is_zero s = fulfilment_label is_zero s s.fulfilment_mode

-- The state of the page, and the handlers: calls of the API for a user who is signed in, and nothing
-- for another.
pub record StorefrontPage : Type 0 where
  pub cart_open : Bool
  pub wishlist : List String

unfoldable pub handle_add_to_cart : Bool → String → Option CartCall
handle_add_to_cart user variant_id = if user then some (add_to_cart variant_id 1) else none

abbrev update_by : String → Option ℕ → CartCall
update_by item_id none = remove_cart_item item_id
update_by item_id (some n) = update_cart_item item_id n

unfoldable pub handle_update_quantity : Bool → String → ℤ → Option CartCall
handle_update_quantity user item_id quantity =
    if user then some (update_by item_id (positive? quantity)) else none

unfoldable pub handle_remove_from_cart : Bool → String → Option CartCall
handle_remove_from_cart user item_id = if user then some (remove_cart_item item_id) else none

unfoldable pub handle_toggle_wishlist : String → StorefrontPage → StorefrontPage
unfolding toggle
handle_toggle_wishlist variant_id p = record p { wishlist = toggle variant_id p.wishlist }

abbrev pub products_call : String → CatalogueCall
products_call slug = get_products (("supplier", text_field slug) ∷ [])

-- `initialProducts ? { results: initialProducts, … } : undefined`
unfoldable pub initial_data : Option (List Product) → Option (PaginatedResponse Product)
initial_data none = none
initial_data (some products) =
    some (record { count = length products; next = none; previous = none; results = products })

abbrev pub cart_items : Option Cart → List CartItem
cart_items none = []
cart_items (some cart) = cart.items

abbrev pub cart_total : Option Cart → String
cart_total none = "0.00"
cart_total (some cart) = cart.total

unfoldable pub cart_count : Option Cart → ℕ
cart_count cart = sum_by (λ (i : CartItem). i.quantity) (cart_items cart)

-- `[city, county].filter(Boolean).join(', ')`
joined : String → String → String
joined city county =
    if is_blank city then county else if is_blank county then city else city <> ", " <> county

unfoldable pub location_label : Option SupplierAddress → String
unfolding joined
location_label none = ""
location_label (some a) = joined a.city a.county

-- `business_name.charAt(0)`
abbrev char_at_0 : String → String
char_at_0 nil_text = nil_text
char_at_0 (char_and c s) = char_and c nil_text

rating_parts : Numbers → Option String → ℕ → List Part
rating_parts n none count = []
rating_parts n (some value) count =
    text (star_rating (n.round value)) ∷ text (n.one_digit value) ∷ number count ∷ []

unfoldable pub supplier_parts : Numbers → (String → Bool) → PublicSupplier → List Part
unfolding rating_parts delivery_label location_label
supplier_parts n is_zero s =
    when (is_blank s.logo_url) (text (char_at_0 s.business_name) ∷ [])
    ++ text s.business_name ∷ rating_parts n s.average_rating s.product_count
    ++ number s.product_count
      ∷ text (if s.product_count == 1 then "product" else "products")
      ∷ when (not (is_blank (location_label s.address))) (text (location_label s.address) ∷ [])
    ++ text (delivery_label is_zero s)
      ∷ when (not (is_blank s.website)) (link s.website "Website" ∷ [])
    ++ when (not (is_blank s.description)) (text s.description ∷ [])

unfoldable pub storefront_view :
    Numbers
    → (String → Bool)
    → (Product → Card)
    → Bool
    → List Product
    → Option PublicSupplier
    → List Part
unfolding supplier_parts cards_view
storefront_view n is_zero cards loading products none =
    text "Supplier not found."
    ∷ text "This storefront may have moved or been removed."
    ∷ link "/catalogue" "Back to catalogue"
    ∷ []
storefront_view n is_zero cards loading products (some s) =
    link "/catalogue" "Back to catalogue" ∷ supplier_parts n is_zero s
    ++ text "Products"
      ∷ number (length products)
      ∷ text "listed"
      ∷ (if loading
          then text "Loading…" ∷ []
          else if is_empty products
          then text "No products listed."
            ∷ text "This supplier has no active products at the moment."
            ∷ []
          else cards_view n cards products)
