-- ===== src/Storefront/Adding.antt =====
-- A card of provena-web/src/components/product-card.tsx on the page of a supplier,
-- provena-web/src/app/suppliers/[slug]/_client.tsx.
use provena.Base.{
  String, Bool, true, false, Option, none, some, List, ◌∷◌, ◌≡◌, refl, if◌then◌else◌,
}
use provena.Types.Catalogue.{Product, ProductVariant}
use provena.Requests.Shop.{CartCall, add_to_cart}
use provena.Goods.Card.{Card, handle_add, add}
use provena.Storefront.{handle_add_to_cart}

-- What the page asks the API for when the card has told it of a variant.
abbrev pub asked : Bool → Option String → Option CartCall
asked user none = none
asked user (some variant_id) = handle_add_to_cart user variant_id

-- A click on the button of a card that is ready puts the first variant into the cart of a user who is
-- signed in. To any other visitor the card says as well that it was added, but nothing is asked of the
-- API, and this page keeps no cart of its own.
pub visitor_adds :
    (product : Product) (v : ProductVariant) (vs : List ProductVariant) (c : Card) (user : Bool)
    → product.variants ≡ v ∷ vs
    → c.added ≡ false
    → let clicked = handle_add product c in
      (clicked.0.added ≡ true)
      × (asked user clicked.1 ≡ (if user then some (add_to_cart v.id 1) else none))
unfolding handle_add add handle_add_to_cart
visitor_adds product v vs c user shown ready = rw (shown, ready) (refl, refl)
