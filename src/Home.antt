-- ===== src/Home.antt =====
-- provena-web/src/app/page.tsx: the home page. Its visitor's cart is handled as on the catalogue's page
-- (Cart), but its items are looked up among the featured products. Home/Recent is about other products.
pub mod Recent
use provena.Base.{
  ℕ, String, Bool, true, false, not, List, [], ◌∷◌, ◌++◌, ◌==◌, string_eq, is_blank, is_empty, any,
  pos, if◌then◌else◌, Option,
}
use provena.Types.Catalogue.{Product, ProductVariant}
use provena.Types.Order.{CartItem}
use provena.Types.Order as Order
use provena.Admin.Banners.{Banner}
use provena.Requests.{flag, number}
use provena.Requests.Shop.{CatalogueCall, get_products}
use provena.Cart.{LocalCart}
use provena.Browse.{Amounts}
use provena.Browse as Browse
use provena.Goods.Card.{Numbers, Card}
use provena.Browse.View.{cards_view}
use provena.Markup.{Part, text, link, when}

abbrev pub featured_call : CatalogueCall
featured_call = get_products (("featured", flag true) ∷ ("page_size", number (pos 8)) ∷ [])

-- The items of the cart: as on the catalogue's page, among the featured products.
unfoldable pub cart_items :
    Amounts → Bool → Option Order.Cart → LocalCart → List Product → List CartItem
cart_items a user server_cart local_cart featured =
    Browse.cart_items a user server_cart local_cart featured

unfoldable pub is_in_wishlist : List String → Product → Bool
is_in_wishlist wishlist product =
    any (λ (v : ProductVariant). any (λ s. s == v.id) wishlist) product.variants

banner_parts : Banner → List Part
banner_parts b =
    text b.title ∷ when (not (is_blank b.subtitle)) (text b.subtitle ∷ [])
    ++ when (not (is_blank b.link)) (link b.link b.title ∷ [])

unfoldable pub banners_parts : List Banner → List Part
unfolding banner_parts
banners_parts [] = []
banners_parts (b ∷ banners) = banner_parts b ++ banners_parts banners

unfoldable pub hero : Bool → List Part
hero user =
    text "Artisan food marketplace"
    ∷ text "Remarkable food, direct from the source."
    ∷ text
        "Hand-picked produce and provisions from small British farms and makers. No middlemen, no compromise."
    ∷ link "/catalogue" "Browse all products"
    ∷ when (not user) (link "/register" "Create an account" ∷ [])

unfoldable pub featured_parts : Numbers → (Product → Card) → List Product → List Part
unfolding cards_view
featured_parts n cards featured =
    if is_empty featured
    then text "Coming soon"
      ∷ text "Our curators are selecting the finest products."
      ∷ link "/catalogue" "Browse all products"
      ∷ []
    else text "Editor's picks"
      ∷ text "Featured this week"
      ∷ link "/catalogue" "All products"
      ∷ cards_view n cards featured

unfoldable pub recommended_parts : Numbers → (Product → Card) → Bool → List Product → List Part
unfolding cards_view
recommended_parts n cards user recommended = when user (
    when (not (is_empty recommended)) (
      text "For you"
      ∷ text "Recommended for you"
      ∷ link "/catalogue" "All products"
      ∷ cards_view n cards recommended))

-- The page, between the navigation and the strip of the products that were viewed.
unfoldable pub home_view :
    Numbers → (Product → Card) → Bool → List Banner → List Product → List Product → List Part
unfolding hero banners_parts featured_parts recommended_parts
home_view n cards user banners featured recommended =
    hero user
    ++ banners_parts banners
    ++ featured_parts n cards featured
    ++ recommended_parts n cards user recommended
