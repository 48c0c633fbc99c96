-- ===== src/Goods/Card.antt =====
-- provena-web/src/components/product-card.tsx.
use provena.Base.{
  ℕ, String, Bool, true, false, not, Option, none, some, List, [], ◌∷◌, ◌++◌, ltb, if◌then◌else◌,
  ◌<>◌,
}
use provena.Types.Catalogue.{Product, ProductVariant}
use provena.Markup.{Part, text, number, link, button, when}
use provena.Goods.{first, with_text, or_blank, or_other, stars, pounds}

-- What the language makes of a number that is written as a text: `Math.round(x)`, `x.toFixed(1)`, and
-- `parseFloat(x).toFixed(0)`.
pub record Numbers : Type 0 where
  pub round : String → ℕ
  pub one_digit : String → String
  pub no_digits : String → String

-- The state of a card. It starts from whether the product is in the wishlist when the card appears.
pub record Card : Type 0 where
  pub added : Bool
  pub wishlisted : Bool

unfoldable pub appears : Bool → Card
appears in_wishlist = record { added = false; wishlisted = in_wishlist }

-- The handlers, with the variant that the page is told of; `timed_out` is the timer's end.
unfoldable pub add : Card → Option ProductVariant → Card × Option String
add c none = (c, none)
add c (some variant) = if c.added then (c, none) else (record c { added = true }, some variant.id)

unfoldable pub handle_add : Product → Card → Card × Option String
unfolding add
handle_add product c = add c (first product.variants)

unfoldable pub timed_out : Card → Card
timed_out c = record c { added = false }

unfoldable pub toggle : Card → Option ProductVariant → Card × Option String
toggle c none = (c, none)
toggle c (some variant) = (record c { wishlisted = not c.wishlisted }, some variant.id)

-- A product without variants has no card, so there is nothing to click on.
unfoldable pub handle_wishlist : Product → Card → Card × Option String
unfolding toggle
handle_wishlist product c = toggle c (first product.variants)

-- The stars of a product that has reviews. An average of ratings from one to five rounds to at most
-- five.
unfoldable pub rating_parts : Numbers → Option String → ℕ → List Part
unfolding stars
rating_parts n none review_count = []
rating_parts n (some average) review_count =
    when (ltb 0 review_count)
      (text (stars (n.round average)) ∷ text (n.one_digit average) ∷ number review_count ∷ [])

-- The card of a product with its first variant.
unfoldable pub card_parts : Numbers → Product → ProductVariant → Card → List Part
unfolding rating_parts
card_parts n product variant c =
    text (or_blank (or_other product.category_name product.category_slug))
      ∷ button (if c.wishlisted then "Remove from wishlist" else "Save to wishlist") false
      ∷ when variant.on_sale
          (with_text variant.discount_percent (λ d. text (n.no_digits d <> "% off") ∷ []))
    ++ text product.supplier_name
      ∷ link ("/catalogue/" <> product.slug) product.name
      ∷ text variant.name
      ∷ rating_parts n product.average_rating product.review_count
    ++ pounds variant.price ∷ with_text variant.compare_at_price (λ p. pounds p ∷ [])
    ++ button (if c.added then "Added ✓" else "Add to cart") false ∷ []

view_of : Numbers → Product → Card → Option ProductVariant → List Part
unfolding card_parts
view_of n product c none = []
view_of n product c (some variant) = card_parts n product variant c

unfoldable pub card_view : Numbers → Product → Card → List Part
unfolding view_of
card_view n product c = view_of n product c (first product.variants)
