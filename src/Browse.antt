-- ===== src/Browse.antt =====
-- provena-web/src/app/catalogue/_client.tsx: the catalogue's page, with its search, filters and order,
-- and the items of the visitor's cart. Cart has what happens to the cart itself, Browse/View what the
-- page shows.
pub mod Ordered
pub mod Items
pub mod Asking
pub mod View
use provena.Base.{
  ℕ, ◌+◌, ◌*◌, String, Bool, true, false, ◌&&◌, not, Option, none, some, List, [], ◌∷◌, ◌++◌, ◌==◌,
  string_eq, is_blank, if◌then◌else◌, ℤ, sub_ℕ, keep, sum_by, any, is_empty,
}
use provena.Types.Catalogue.{
  Product, ProductVariant, ProductStatus, active, draft, archived, Category, category,
  no_categories, PaginatedResponse,
}
use provena.Types.Order.{CartItem}
use provena.Types.Order as Order
use provena.Requests.{Fields, Value, text}
use provena.Requests.Shop.{CatalogueCall, get_products}
use provena.Cart.{LocalCart, Group, group_by_supplier}
use provena.Goods.{find, first}

-- Amounts: `parseFloat(amount)` in pence, and `(pence / 100).toFixed(2)`. An amount is a decimal
-- number with two digits after the point, as the API sends it.
pub record Amounts : Type 0 where
  pub pence : String → ℕ
  pub fixed : ℕ → String

abbrev pub all_category : Category
all_category = category "all" "All" "all" "" none none no_categories 0 true 0

pub data SortKey : Type 0 where
  best_match price_asc price_desc : SortKey

unfoldable pub sort_label : SortKey → String
sort_label best_match = "Best match"
sort_label price_asc = "Price: low to high"
sort_label price_desc = "Price: high to low"

-- `array.sort(compare)`, where `compare` answers a number.
abbrev pub Sort : Type 0
Sort = (Product → Product → ℤ) → List Product → List Product

-- `variants[0]?.price ?? '0'`
abbrev pub first_price : Option ProductVariant → String
first_price none = "0"
first_price (some variant) = variant.price

module _ (a : Amounts) where
  unfoldable pub price_of : Product → ℕ
  price_of p = a.pence (first_price (first p.variants))

  -- The two comparisons of prices.
  abbrev pub cheaper : Product → Product → ℤ
  cheaper p q = sub_ℕ (price_of p) (price_of q)

  abbrev pub dearer : Product → Product → ℤ
  dearer p q = sub_ℕ (price_of q) (price_of p)

  unfoldable pub apply_sort : Sort → List Product → SortKey → List Product
  apply_sort sort items price_asc = sort cheaper items
  apply_sort sort items price_desc = sort dearer items
  apply_sort sort items best_match = items

  -- `(parseFloat(variant.price) * quantity).toFixed(2)`
  unfoldable pub subtotal : ProductVariant → ℕ → String
  subtotal variant quantity = a.fixed (a.pence variant.price * quantity)

  unfoldable pub local_item : String → ℕ → Product → ProductVariant → CartItem
  unfolding subtotal
  local_item variant_id quantity product variant = record {
    id = variant_id;
    variant = variant_id;
    variant_sku = variant.sku;
    variant_name = variant.name;
    product_name = product.name;
    price = variant.price;
    quantity = quantity;
    subtotal = subtotal variant quantity;
    reservation_expires_at = none;
    added_at = "";
    updated_at = "";
  }

is_active : ProductStatus → Bool
is_active active = true
is_active draft = false
is_active archived = false

unfoldable pub is_offered : Product → Bool
unfolding is_active
is_offered p = is_active p.status

unfoldable pub filtered : Amounts → Sort → List Product → SortKey → List Product
unfolding apply_sort
filtered a sort all_products key = apply_sort a sort (keep is_offered all_products) key

unfoldable pub grouped : Amounts → Sort → List Product → SortKey → List (Group Product)
unfolding filtered
grouped a sort all_products key =
    group_by_supplier (λ (p : Product). p.supplier_slug) (λ (p : Product). p.supplier_name)
      (filtered a sort all_products key)

-- The loop over the products, which ends at the first that has the variant.
abbrev pub found_or :
    Option ProductVariant
    → Product
    → Option (Product × ProductVariant)
    → Option (Product × ProductVariant)
found_or none product rest = rest
found_or (some variant) product rest = some (product, variant)

unfoldable pub find_variant : String → List Product → Option (Product × ProductVariant)
find_variant variant_id [] = none
find_variant variant_id (product ∷ products) =
    found_or (find (λ (v : ProductVariant). v.id == variant_id) product.variants) product
      (find_variant variant_id products)

abbrev pub item_or_nothing :
    Amounts → String → ℕ → Option (Product × ProductVariant) → List CartItem
item_or_nothing a variant_id quantity none = []
item_or_nothing a variant_id quantity (some (product, variant)) =
    local_item a variant_id quantity product variant ∷ []

unfoldable pub build_local_cart_items : Amounts → LocalCart → List Product → List CartItem
build_local_cart_items a [] products = []
build_local_cart_items a ((variant_id, quantity) ∷ cart) products =
    item_or_nothing a variant_id quantity (find_variant variant_id products)
    ++ build_local_cart_items a cart products

-- `user && serverCart`: the cart of the API is there for a user who is signed in, once it has come.
abbrev pub server_cart_of : Bool → Option Order.Cart → Option Order.Cart
server_cart_of false server_cart = none
server_cart_of true server_cart = server_cart

unfoldable pub items_of : Option Order.Cart → List CartItem → List CartItem
items_of none local = local
items_of (some cart) local = cart.items

unfoldable pub total_of : Option Order.Cart → String → String
total_of none local = local
total_of (some cart) local = cart.total

unfoldable pub cart_items :
    Amounts → Bool → Option Order.Cart → LocalCart → List Product → List CartItem
unfolding items_of
cart_items a user server_cart local_cart all_products =
    items_of (server_cart_of user server_cart) (build_local_cart_items a local_cart all_products)

unfoldable pub cart_total : Amounts → Bool → Option Order.Cart → List CartItem → String
unfolding total_of
cart_total a user server_cart items =
    total_of (server_cart_of user server_cart)
      (a.fixed (sum_by (λ (i : CartItem). a.pence i.subtotal) items))

unfoldable pub items_count : List CartItem → ℕ
items_count items = sum_by (λ (i : CartItem). i.quantity) items

-- A `Set` of variants, in the order in which they were added.
unfoldable pub toggle : String → List String → List String
toggle variant_id wishlist =
    if any (λ v. v == variant_id) wishlist
    then keep (λ v. not (v == variant_id)) wishlist
    else wishlist ++ variant_id ∷ []

-- The page, but for the cart; `timer` holds the search that the timer will put into force.
pub record BrowsePage : Type 0 where
  pub active_category : String
  pub sort : SortKey
  pub sort_open : Bool
  pub cart_open : Bool
  pub filter_open : Bool
  pub search : String
  pub debounced_search : String
  pub min_price : String
  pub max_price : String
  pub wishlist : List String
  pub timer : Option String

-- The page after its first effect, which has set the timer.
abbrev pub initial : BrowsePage
initial = record {
  active_category = "all";
  sort = best_match;
  sort_open = false;
  cart_open = false;
  filter_open = false;
  search = "";
  debounced_search = "";
  min_price = "";
  max_price = "";
  wishlist = [];
  timer = some "";
}

-- The events: the fields, the buttons, and the end of the timer.
pub data Event : Type 0 where
  select : (slug : String) → Event
  type : (search : String) → Event
  type_min type_max : (price : String) → Event
  clear_prices toggle_sort close_sort toggle_filter open_cart close_cart : Event
  choose_sort : SortKey → Event
  toggle_wishlist : (variant_id : String) → Event
  timer_ends : Event

-- A search that is other than before runs the effect again: its cleanup clears the timer.
unfoldable pub set_search : String → BrowsePage → BrowsePage
set_search search p =
    if p.search == search then p else record p { search = search; timer = some search }

end_timer : Option String → BrowsePage → BrowsePage
end_timer none p = p
end_timer (some search) p = record p { debounced_search = search; timer = none }

unfoldable pub on_event : Event → BrowsePage → BrowsePage
unfolding set_search end_timer toggle
on_event (select slug) p = record p { active_category = slug }
on_event (type search) p = set_search search p
on_event (type_min price) p = record p { min_price = price }
on_event (type_max price) p = record p { max_price = price }
on_event clear_prices p = record p { min_price = ""; max_price = "" }
on_event toggle_sort p = record p { sort_open = not p.sort_open }
on_event close_sort p = record p { sort_open = false }
on_event toggle_filter p = record p { filter_open = not p.filter_open }
on_event open_cart p = record p { cart_open = true }
on_event close_cart p = record p { cart_open = false }
on_event (choose_sort key) p = record p { sort = key; sort_open = false }
on_event (toggle_wishlist variant_id) p = record p { wishlist = toggle variant_id p.wishlist }
on_event timer_ends p = end_timer p.timer p

-- `text && { name: parse(text) }`, spread into an object.
abbrev if_text : String → String → (String → Value) → Fields
if_text name s value = if is_blank s then [] else (name, value s) ∷ []

-- `parseFloat(text)` as a request carries it.
module _ (number_of : String → Value) where
  unfoldable pub product_params : BrowsePage → Fields
  product_params p =
      (if p.active_category == "all" then [] else ("category", text p.active_category) ∷ [])
      ++ if_text "search" p.debounced_search text
      ++ if_text "min_price" p.min_price number_of
      ++ if_text "max_price" p.max_price number_of

  -- `getProducts(params)`, where no fields are `undefined`, which asks for the same.
  unfoldable pub products_call : BrowsePage → CatalogueCall
  products_call p = get_products (product_params p)

  -- The products of the server's rendering stand for the first answer of the query without fields.
  unfoldable pub initial_data :
      BrowsePage → Option (PaginatedResponse Product) → Option (PaginatedResponse Product)
  initial_data p initial_products = if is_empty (product_params p) then initial_products else none

-- `productsData?.results ?? []`
abbrev pub results_of : Option (PaginatedResponse Product) → List Product
results_of none = []
results_of (some data_) = data_.results
