-- ===== src/Cart.antt =====
-- provena-web/src/app/catalogue/_client.tsx: the cart of a visitor who is not signed in, which the
-- page keeps, and what the page does for one who is. The cart is a `Map` from variants to
-- quantities: its entries in the order in which their keys were added.
pub mod Quantities
pub mod Basket
pub mod Grouping
use provena.Base.{
  ℕ, zero, suc, ◌+◌, ◌-◌, String, Bool, true, false, not, Option, none, some, List, [], ◌∷◌, ◌++◌,
  ◌==◌, string_eq, leb, sum_by, if◌then◌else◌, ℤ, pos, negsuc,
}

abbrev pub LocalCart : Type 0
LocalCart = List (String × ℕ)

-- `map.get(key)`
unfoldable pub get : String → LocalCart → Option ℕ
get key [] = none
get key ((k, q) ∷ entries) = if k == key then some q else get key entries

-- `map.set(key, quantity)`
unfoldable pub set : String → ℕ → LocalCart → LocalCart
set key quantity [] = (key, quantity) ∷ []
set key quantity ((k, q) ∷ entries) =
    if k == key then (k, quantity) ∷ entries else (k, q) ∷ set key quantity entries

-- `map.delete(key)`
unfoldable pub delete : String → LocalCart → LocalCart
delete key [] = []
delete key ((k, q) ∷ entries) =
    let rest = delete key entries in if k == key then rest else (k, q) ∷ rest

-- The requests that are made for a user who is signed in.
pub data Mutation : Type 0 where
  add : (variant_id : String) (qty : ℕ) → Mutation
  update : (item_id : String) (qty : ℕ) → Mutation
  remove : (item_id : String) → Mutation

pub record Page : Type 0 where
  pub user : Bool
  pub local_cart : LocalCart
  pub mutations : List Mutation

abbrev request : Mutation → Page → Page
request m p = record p { mutations = m ∷ p.mutations }

abbrev pub or_zero : Option ℕ → ℕ
or_zero none = 0
or_zero (some n) = n

unfoldable pub handle_add_to_cart : String → Page → Page
unfolding get set
handle_add_to_cart variant_id p = if p.user then request (add variant_id 1) p else record p {
  local_cart = set variant_id (or_zero (get variant_id p.local_cart) + 1) p.local_cart;
}

-- The quantity is an integer: the drawer's minus button asks for one less than there is.
unfoldable pub handle_update_quantity : String → ℤ → Page → Page
unfolding set delete
handle_update_quantity item_id (pos zero) p =
    if p.user
    then request (remove item_id) p
    else record p { local_cart = delete item_id p.local_cart }
handle_update_quantity item_id (negsuc n) p =
    if p.user
    then request (remove item_id) p
    else record p { local_cart = delete item_id p.local_cart }
handle_update_quantity item_id (pos (suc n)) p =
    if p.user
    then request (update item_id (suc n)) p
    else record p { local_cart = set item_id (suc n) p.local_cart }

unfoldable pub handle_remove_from_cart : String → Page → Page
unfolding delete
handle_remove_from_cart item_id p =
    if p.user
    then request (remove item_id) p
    else record p { local_cart = delete item_id p.local_cart }

-- `cartItems.reduce((s, i) => s + i.quantity, 0)`, over the entries.
unfoldable pub cart_count : LocalCart → ℕ
cart_count cart = sum_by (λ e. e.1) cart

-- `groupBySupplier`: the products of the page by supplier. Of a product only its supplier's slug
-- and name are looked at.
pub record Group {ℓ} (Product : Type ℓ) : Type ℓ where
  pub supplier_name : String
  pub supplier_slug : String
  pub products : List Product

module _ {ℓ} {Product : Type ℓ} (slug name : Product → String) where
  -- One round of the loop, on the values of the `Map` in the order of their keys.
  pub add_to_group : Product → List (Group Product) → List (Group Product)
  add_to_group p [] =
      record { supplier_name = name p; supplier_slug = slug p; products = p ∷ [] } ∷ []
  add_to_group p (g ∷ groups) =
      if g.supplier_slug == slug p
      then record g { products = g.products ++ p ∷ [] } ∷ groups
      else g ∷ add_to_group p groups

  pub group_from : List (Group Product) → List Product → List (Group Product)
  group_from groups [] = groups
  group_from groups (p ∷ products) = group_from (add_to_group p groups) products

  unfoldable pub group_by_supplier : List Product → List (Group Product)
  unfolding group_from add_to_group
  group_by_supplier products = group_from [] products
