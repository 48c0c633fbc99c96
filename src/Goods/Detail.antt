-- ===== src/Goods/Detail.antt =====
-- provena-web/src/app/catalogue/[slug]/_client.tsx, the page of a product: its state, its handlers and
-- the requests that they make. Detail/View is what it shows.
pub mod View
pub mod Asking
pub mod Rating
use provena.Base.{
  ℕ, zero, suc, ◌+◌, ◌-◌, ◌*◌, ◌/◌, String, Bool, true, false, ◌||◌, not, Option, none, some, List,
  [], ◌∷◌, ◌==◌, string_eq, nat_eq, leb, is_blank, is_empty, sum_by, if◌then◌else◌, ℤ, pos, negsuc,
  length,
}
use provena.Types.Order.{CartItem}
use provena.Types.Catalogue.{Product, ProductVariant, Review, WishlistItem}
use provena.Requests.{Fields}
use provena.Requests
use provena.Requests.Shop.{
  CartCall, add_to_cart, update_cart_item, remove_cart_item, add_to_wishlist, remove_from_wishlist,
  CatalogueCall, submit_review,
}
use provena.Orders.Forms.{blank_trimmed, or_default}
use provena.Goods.{find, first, or_other}

pub record Detail : Type 0 where
  pub cart_open : Bool
  pub selected_variant : Option ProductVariant
  pub qty : ℕ
  pub selected_image : ℕ
  pub review_rating : ℕ
  pub review_title : String
  pub review_body : String
  pub review_error : Option String
  pub review_success : Bool

abbrev pub initial : Detail
initial = record {
  cart_open = false;
  selected_variant = none;
  qty = 1;
  selected_image = 0;
  review_rating = 0;
  review_title = "";
  review_body = "";
  review_error = none;
  review_success = false;
}

-- The events of the page. `added` is the success of either request that adds to the cart, `reviewed`
-- and `review_refused` are the ends of the request that sends a review.
pub data Event : Type 0 where
  choose : (variant : ProductVariant) → Event
  fewer more : Event
  view_cart close_cart added : Event
  show_image : (idx : ℕ) → Event
  rate : (star : ℕ) → Event
  type_title type_body : (value : String) → Event
  reviewed : Event
  review_refused : (detail : Option String) → Event

-- `Math.max(1, q - 1)`
abbrev pub fewer_of : ℕ → ℕ
fewer_of q = if leb 1 (q - 1) then q - 1 else 1

unfoldable pub on_event : Event → Detail → Detail
on_event (choose variant) d = record d { selected_variant = some variant; qty = 1 }
on_event fewer d = record d { qty = fewer_of d.qty }
on_event more d = record d { qty = d.qty + 1 }
on_event view_cart d = record d { cart_open = true }
on_event close_cart d = record d { cart_open = false }
on_event added d = record d { cart_open = true }
on_event (show_image idx) d = record d { selected_image = idx }
on_event (rate star) d = record d { review_rating = star }
on_event (type_title value) d = record d { review_title = value }
on_event (type_body value) d = record d { review_body = value }
on_event reviewed d = record d {
  review_success = true;
  review_rating = 0;
  review_title = "";
  review_body = "";
  review_error = none;
}
on_event (review_refused detail) d = record d {
  review_error = some (or_default detail "Could not submit review.");
}

-- `selectedVariant ?? product?.variants.find((v) => v.is_active) ?? product?.variants[0] ?? null`
abbrev pub offered : Option Product → Option ProductVariant
offered none = none
offered (some product) =
    or_other (find (λ (v : ProductVariant). v.is_active) product.variants) (first product.variants)

unfoldable pub active_variant : Option Product → Detail → Option ProductVariant
active_variant product d = or_other d.selected_variant (offered product)

-- The item of a variant among those of the cart, and of the wishlist.
abbrev cart_item_of : Option ProductVariant → List CartItem → Option CartItem
cart_item_of none items = none
cart_item_of (some v) items = find (λ (i : CartItem). i.variant == v.id) items

unfoldable pub cart_item_for_variant : Option Product → Detail → List CartItem → Option CartItem
cart_item_for_variant product d items = cart_item_of (active_variant product d) items

unfoldable pub wishlist_item : String → List WishlistItem → Option WishlistItem
wishlist_item variant_id wishlist = find (λ (w : WishlistItem). w.variant == variant_id) wishlist

-- The requests. One that is about the active variant is offered only where there is one.
unfoldable pub add_of : ℕ → Option ProductVariant → Option CartCall
add_of qty none = none
add_of qty (some v) = some (add_to_cart v.id qty)

unfoldable pub add_to_cart_call : Option Product → Detail → Option CartCall
unfolding add_of
add_to_cart_call product d = add_of d.qty (active_variant product d)

unfoldable pub update_cart_call : String → ℤ → CartCall
update_cart_call id (pos zero) = remove_cart_item id
update_cart_call id (pos (suc n)) = update_cart_item id (suc n)
update_cart_call id (negsuc n) = remove_cart_item id

unfoldable pub toggle_of : String → Option WishlistItem → CartCall
toggle_of variant_id none = add_to_wishlist variant_id
toggle_of variant_id (some existing) = remove_from_wishlist existing.id

-- `relatedWishlistMutation`, and `wishlistMutation`, which does the same for the active variant.
unfoldable pub toggle_call : List WishlistItem → String → CartCall
unfolding toggle_of
toggle_call wishlist variant_id = toggle_of variant_id (wishlist_item variant_id wishlist)

wish_of : List WishlistItem → Option ProductVariant → Option CartCall
wish_of wishlist none = none
wish_of wishlist (some v) = some (toggle_call wishlist v.id)

unfoldable pub wishlist_call : Option Product → Detail → List WishlistItem → Option CartCall
unfolding wish_of
wishlist_call product d wishlist = wish_of wishlist (active_variant product d)

abbrev payload : Detail → Fields
payload d =
    ("rating", Requests.number (pos d.review_rating))
    ∷ ("title", Requests.text d.review_title)
    ∷ ("body", Requests.text d.review_body)
    ∷ []

review_of : Detail → Option ProductVariant → Option CatalogueCall
review_of d none = none
review_of d (some v) = some (submit_review v.id (payload d))

unfoldable pub review_call : Option Product → Detail → Option CatalogueCall
unfolding review_of
review_call product d = review_of d (active_variant product d)

-- The `disabled` of the button that submits a review.
unfoldable pub review_disabled : Bool → Detail → Bool
review_disabled is_pending d =
    is_pending
    || d.review_rating == 0
    || blank_trimmed d.review_title
    || blank_trimmed d.review_body

-- The average of the ratings, as their sum and their number; and `Math.round` of it.
unfoldable pub avg_rating : List Review → Option (ℕ × ℕ)
avg_rating reviews =
    if is_empty reviews
    then none
    else some (sum_by (λ (r : Review). r.rating) reviews, length reviews)

unfoldable pub round_of : ℕ × ℕ → ℕ
round_of (total, count) = (2 * total + count) / (2 * count)
