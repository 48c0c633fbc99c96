-- ===== src/Wishes.antt =====
-- provena-web/src/app/wishlist/page.tsx: the saved products of a user, of which more pages are loaded
-- as the user asks for them. Wishes/Pages is about the pages.
pub mod Pages
use Prim.Native.Char.{code}
use Prim.Native.String.{[] as nil_text, ◌∷◌ as char_and}
use provena.Base.{
  ℕ, ◌+◌, String, Bool, true, false, ◌&&◌, ◌||◌, not, Option, none, some, List, [], ◌∷◌, ◌++◌, ◌<>◌,
  ◌==◌, string_eq, nat_eq, is_empty, any, length, if◌then◌else◌, ℤ, pos, negsuc, sub_ℕ, positive?,
}
use provena.Types.Catalogue.{WishlistItem, PaginatedResponse}
use provena.Types.Order.{CartItem, Cart}
use provena.Requests.Shop.{
  CartCall, get_wishlist, remove_from_wishlist, add_to_cart, update_cart_item, remove_cart_item,
}
use provena.Goods.{find}
use provena.Markup.{Part, text, number, link, button, when}

pub record WishlistPage : Type 0 where
  pub cart_open : Bool
  pub loaded_pages : List ℕ

abbrev pub initial : WishlistPage
initial = record { cart_open = false; loaded_pages = 1 ∷ [] }

-- `removed` and `added` are the success of their calls.
pub data Event : Type 0 where
  load_more removed added open_cart close_cart : Event

unfoldable pub on_event : Event → WishlistPage → WishlistPage
on_event load_more p = record p {
  loaded_pages = p.loaded_pages ++ (length p.loaded_pages + 1) ∷ [];
}
on_event removed p = record p { loaded_pages = 1 ∷ [] }
on_event added p = record p { cart_open = true }
on_event open_cart p = record p { cart_open = true }
on_event close_cart p = record p { cart_open = false }

-- The queries: one for each page, of a user who is signed in.
unfoldable pub page_calls : Bool → List ℕ → List CartCall
page_calls user [] = []
page_calls user (p ∷ pages) =
    let rest = page_calls user pages in if user then get_wishlist p ∷ rest else rest

abbrev pub Answer : Type 0
Answer = Option (PaginatedResponse WishlistItem)

abbrev pub results_of : Answer → List WishlistItem
results_of none = []
results_of (some data_) = data_.results

-- `pageResults`, for what each page has been answered with.
unfoldable pub all_items : (ℕ → Answer) → List ℕ → List WishlistItem
all_items answer [] = []
all_items answer (p ∷ pages) = results_of (answer p) ++ all_items answer pages

abbrev pub has_text : Option String → Bool
has_text none = false
has_text (some nil_text) = false
has_text (some (char_and c s)) = true

abbrev pub next_of : Answer → Bool
next_of none = false
next_of (some data_) = has_text data_.next

-- `hasMore`: whether the last page has a next one.
unfoldable pub has_more : (ℕ → Answer) → List ℕ → Bool
has_more answer [] = false
has_more answer (p ∷ []) = next_of (answer p)
has_more answer (p ∷ q ∷ pages) = has_more answer (q ∷ pages)

abbrev count_or : ℕ → Answer → ℕ
count_or n none = n
count_or n (some data_) = data_.count

unfoldable pub total_count : (ℕ → Answer) → List ℕ → ℕ
total_count answer [] = 0
total_count answer (p ∷ pages) = count_or (length (all_items answer (p ∷ pages))) (answer p)

-- The calls of the buttons: of an item, of its entry in the cart, and of the drawer.
abbrev pub remove_call : WishlistItem → CartCall
remove_call item = remove_from_wishlist item.id

abbrev pub add_to_cart_call : WishlistItem → CartCall
add_to_cart_call item = add_to_cart item.variant 1

abbrev update_by : String → Option ℕ → CartCall
update_by id none = remove_cart_item id
update_by id (some n) = update_cart_item id n

unfoldable pub update_cart_call : String → ℤ → CartCall
update_cart_call id quantity = update_by id (positive? quantity)

abbrev pub fewer_call : CartItem → CartCall
fewer_call item = update_cart_call item.id (sub_ℕ item.quantity 1)

abbrev pub more_call : CartItem → CartCall
more_call item = update_cart_call item.id (pos (item.quantity + 1))

abbrev pub cart_item_in : Option Cart → WishlistItem → Option CartItem
cart_item_in none item = none
cart_item_in (some cart) item = find (λ (c : CartItem). c.variant == item.variant) cart.items

-- `variant_sku.split('-')[0]`
unfoldable pub before_dash : String → String
before_dash nil_text = nil_text
before_dash (char_and c s) = if code c == 45 then nil_text else char_and c (before_dash s)

-- The calls that are under way.
pub record Pending : Type 0 where
  pub adds : Bool
  pub updates : Bool
  pub removes : Bool

cart_parts : Pending → Option CartItem → List Part
cart_parts w none = button "Add to cart" w.adds ∷ []
cart_parts w (some c) =
    button "-" w.updates ∷ number c.quantity ∷ button "+" w.updates ∷ button "View cart" false ∷ []

unfoldable pub item_row : Pending → Option Cart → WishlistItem → List Part
unfolding cart_parts before_dash
item_row w cart item =
    link ("/catalogue/" <> before_dash item.variant_sku) item.product_name
      ∷ text (item.variant_name <> " · SKU " <> item.variant_sku)
      ∷ text ("£" <> item.price)
      ∷ when (not item.is_active) (text "No longer available" ∷ [])
    ++ when item.is_active (cart_parts w (cart_item_in cart item))
    ++ button "Remove from wishlist" w.removes ∷ []

unfoldable pub item_rows : Pending → Option Cart → List WishlistItem → List Part
unfolding item_row
item_rows w cart [] = []
item_rows w cart (item ∷ items) = item_row w cart item ++ item_rows w cart items

-- The page of a user who is signed in; nothing is shown to another.
unfoldable pub wishlist_view :
    Bool → Bool → Pending → Option Cart → (ℕ → Answer) → WishlistPage → List Part
unfolding item_rows total_count has_more all_items
wishlist_view user is_pending w cart answer p =
    let items = all_items answer p.loaded_pages in
    let total = total_count answer p.loaded_pages in
    when user (
      text "Saved items"
        ∷ when (not is_pending) (number total ∷ text (if total == 1 then "item" else "items") ∷ [])
      ++ (if is_pending && length p.loaded_pages == 1
          then text "Loading…" ∷ []
          else if is_empty items
          then text "Your wishlist is empty." ∷ link "/catalogue" "Browse products" ∷ []
          else item_rows w cart items
            ++ when (has_more answer p.loaded_pages)
                (button (if is_pending then "Loading…" else "Load more") is_pending ∷ [])))
