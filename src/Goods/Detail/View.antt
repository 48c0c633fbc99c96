-- ===== src/Goods/Detail/View.antt =====
-- What the page of provena-web/src/app/catalogue/[slug]/_client.tsx shows.
use provena.Base.{
  ℕ, zero, suc, String, Bool, true, false, ◌&&◌, not, Option, none, some, List, [], ◌∷◌, ◌++◌, ◌<>◌,
  ◌==◌, string_eq, nat_eq, ltb, is_blank, is_empty, if◌then◌else◌, length, keep,
}
use provena.Types.Order.{CartItem, ReturnPolicy, returnable, defective_only, sealed}
use provena.Types.Catalogue.{Product, ProductVariant, ProductImage, Review, WishlistItem}
use provena.Markup.{Part, text, number, link, button, field, when}
use provena.Goods.{first, or_other, with_text, star_rating, pounds}
use provena.Goods.Card.{Card, Numbers, card_view}
use provena.Goods.Detail.{
  Detail, active_variant, cart_item_for_variant, wishlist_item, review_disabled, avg_rating,
  round_of,
}

-- What the language prints: `x.toFixed(1)` of a fraction, and a date.
pub record Prints : Type 0 where
  pub one_digit : ℕ × ℕ → String
  pub date : String → String

unfoldable pub return_policy_text : ReturnPolicy → String
return_policy_text returnable = "Returnable within 14 days of delivery."
return_policy_text sealed =
    "Sealed for hygiene: returnable within 14 days only if unopened. If it arrives damaged or faulty, raise a dispute."
return_policy_text defective_only =
    "Perishable: non-returnable, except if it arrives damaged or spoiled (raise a dispute)."

rating_head : Prints → ℕ × ℕ → List Part
rating_head pr avg = text (star_rating (round_of avg)) ∷ text (pr.one_digit avg) ∷ []

-- The rating beside the product's name, and at the head of the reviews.
summary_of : Prints → ℕ → Option (ℕ × ℕ) → List Part
unfolding rating_head
summary_of pr count none = []
summary_of pr count (some avg) =
    rating_head pr avg ++ number count ∷ text (if count == 1 then "review" else "reviews") ∷ []

average_of : Prints → Option (ℕ × ℕ) → List Part
unfolding rating_head
average_of pr none = []
average_of pr (some avg) = rating_head pr avg ++ text "average" ∷ []

unfoldable pub image_parts : List ProductImage → List Part
image_parts [] = []
image_parts (img ∷ images) = button img.alt_text false ∷ image_parts images

-- `images[selectedImage] ?? images[0]`
image_at : ℕ → List ProductImage → Option ProductImage
image_at n [] = none
image_at zero (img ∷ images) = some img
image_at (suc n) (img ∷ images) = image_at n images

unfoldable pub primary_image : Detail → List ProductImage → Option ProductImage
unfolding image_at
primary_image d images = or_other (image_at d.selected_image images) (first images)

alt_of : Product → Option ProductImage → List Part
alt_of product none = []
alt_of product (some img) = text (if is_blank img.alt_text then product.name else img.alt_text) ∷ []

unfoldable pub variant_buttons : List ProductVariant → List Part
variant_buttons [] = []
variant_buttons (v ∷ variants) = button v.name false ∷ variant_buttons variants

-- The product: its images, its name and supplier, and the choice of a variant.
unfoldable pub info_parts : Prints → Product → Detail → List Review → List Part
unfolding alt_of summary_of
info_parts pr product d reviews =
    alt_of product (primary_image d product.images)
    ++ when (ltb 1 (length product.images)) (image_parts product.images)
    ++ with_text product.category_name (λ c. text c ∷ [])
    ++ text product.name
      ∷ text "by"
      ∷ link ("/catalogue?supplier=" <> product.supplier_slug) product.supplier_name
      ∷ summary_of pr (length reviews) (avg_rating reviews)
    ++ when (not (is_blank product.description)) (text product.description ∷ [])
    ++ when (ltb 1 (length product.variants)) (
        text "Select size"
        ∷ variant_buttons (keep (λ (v : ProductVariant). v.is_active) product.variants))

unfoldable pub cart_controls : Bool → Bool → Detail → Option CartItem → List Part
cart_controls update_pending add_pending d none =
    button "-" false ∷ number d.qty ∷ button "+" false ∷ button "Add to cart" add_pending ∷ []
cart_controls update_pending add_pending d (some item) =
    button "-" update_pending
    ∷ number item.quantity
    ∷ button "+" update_pending
    ∷ button "View cart" false
    ∷ []

is_present : Option WishlistItem → Bool
is_present none = false
is_present (some w) = true

-- Which of the requests of the page are under way.
pub record Pending : Type 0 where
  pub add_to_cart : Bool
  pub update_cart : Bool
  pub wishlist : Bool
  pub review : Bool

-- What the page's queries have answered.
pub record Answers : Type 0 where
  pub signed_in : Bool
  pub items : List CartItem
  pub wishlist : List WishlistItem
  pub reviews : List Review

unfoldable pub buy_parts : Pending → Answers → Product → Detail → ProductVariant → List Part
unfolding cart_controls is_present
buy_parts p a product d v =
    pounds v.price ∷ with_text v.compare_at_price (λ price. pounds price ∷ [])
    ++ when v.on_sale (with_text v.discount_percent (λ percent. text ("-" <> percent <> "%") ∷ []))
    ++ cart_controls p.update_cart p.add_to_cart d (cart_item_for_variant (some product) d a.items)
    ++ when a.signed_in (
        button
          (if is_present (wishlist_item v.id a.wishlist)
            then "Remove from wishlist"
            else "Add to wishlist")
          p.wishlist
        ∷ [])
    ++ text (return_policy_text product.effective_return_policy) ∷ []

buy_of : Pending → Answers → Product → Detail → Option ProductVariant → List Part
buy_of p a product d none = []
buy_of p a product d (some v) = buy_parts p a product d v

unfoldable pub review_parts : Prints → Review → List Part
review_parts pr r =
    text (star_rating r.rating)
      ∷ text r.title
      ∷ when r.is_verified_purchase (text "Verified purchase" ∷ [])
    ++ text (pr.date r.created_at) ∷ text r.body ∷ []

unfoldable pub reviews_parts : Prints → List Review → List Part
unfolding review_parts
reviews_parts pr [] = []
reviews_parts pr (r ∷ reviews) = review_parts pr r ++ reviews_parts pr reviews

-- The form for a review, and what stands in its place.
unfoldable pub review_form : Bool → Bool → Detail → List Part
review_form signed_in is_pending d =
    when (signed_in && not d.review_success) (
      text "Write a review"
        ∷ text "Your rating"
        ∷ button "Rate 1 star" false
        ∷ button "Rate 2 stars" false
        ∷ button "Rate 3 stars" false
        ∷ button "Rate 4 stars" false
        ∷ button "Rate 5 stars" false
        ∷ field "Title" d.review_title
        ∷ field "Review" d.review_body
        ∷ with_text d.review_error (λ e. text e ∷ [])
      ++ button (if is_pending then "Submitting…" else "Submit review")
          (review_disabled is_pending d)
        ∷ [])
    ++ when d.review_success (
        text "Review submitted"
        ∷ text "Thank you. Your review will appear once approved by our team."
        ∷ [])
    ++ when (not signed_in) (link "/login" "Sign in" ∷ text "to leave a review." ∷ [])

-- The products that go with this one, each with the state of its card.
unfoldable pub related_parts : Numbers → List (Product × Card) → List Part
related_parts n [] = []
related_parts n ((product, c) ∷ related) = card_view n product c ++ related_parts n related

-- The page between the bar and the strip of recently viewed products.
unfoldable pub product_view :
    Prints → Numbers → Pending → Answers → List (Product × Card) → Product → Detail → List Part
unfolding info_parts buy_of reviews_parts review_form related_parts average_of
product_view pr n p a related product d =
    link "/catalogue" "Back to catalogue" ∷ info_parts pr product d a.reviews
    ++ buy_of p a product d (active_variant (some product) d)
    ++ text "Reviews" ∷ average_of pr (avg_rating a.reviews)
    ++ (if is_empty a.reviews
        then text "No reviews yet for this variant." ∷ []
        else reviews_parts pr a.reviews)
    ++ review_form a.signed_in p.review d
    ++ when (not (is_empty related)) (text "You might also like" ∷ related_parts n related)

-- `none` is a product that is not there; `is_pending`, that its query has not ended.
unfoldable pub detail_view :
    Prints
    → Numbers
    → Pending
    → Answers
    → List (Product × Card)
    → Bool
    → Option Product
    → Detail
    → List Part
unfolding product_view
detail_view pr n p a related is_pending none d =
    if is_pending then text "Loading…" ∷ [] else text "Product not found." ∷ []
detail_view pr n p a related is_pending (some product) d =
    if is_pending then text "Loading…" ∷ [] else product_view pr n p a related product d
