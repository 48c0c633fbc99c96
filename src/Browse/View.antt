-- ===== src/Browse/View.antt =====
-- What the catalogue's page of provena-web/src/app/catalogue/_client.tsx shows, with
-- provena-web/src/components/category-tabs.tsx and supplier-section.tsx.
use provena.Base.{
  ℕ, String, Bool, false, ◌||◌, not, Option, none, some, List, [], ◌∷◌, ◌++◌, ◌<>◌, ◌==◌, string_eq,
  nat_eq, is_blank, is_empty, any, length, if◌then◌else◌,
}
use provena.Types.Catalogue.{Product, ProductVariant, Category, category}
use provena.Cart.{Group}
use provena.Goods.{first}
use provena.Goods.Card.{Numbers, Card, card_view}
use provena.Markup.{Part, text, number, link, button, field, when}
use provena.Browse.{
  BrowsePage, best_match, price_asc, price_desc, sort_label, all_category, Amounts, Sort, filtered,
  grouped,
}

unfoldable pub tab_of : Category → Part
tab_of (category id name slug description image_url parent_slug children position is_active n) =
    button name false

unfoldable pub category_tabs : List Category → List Part
unfolding tab_of
category_tabs [] = []
category_tabs (cat ∷ categories) = tab_of cat ∷ category_tabs categories

-- `variantId ? wishlist.has(variantId) : false`, with which a card appears.
has_first : List String → Option ProductVariant → Bool
has_first wishlist none = false
has_first wishlist (some variant) =
    if is_blank variant.id then false else any (λ v. v == variant.id) wishlist

unfoldable pub in_wishlist : List String → Product → Bool
unfolding has_first
in_wishlist wishlist product = has_first wishlist (first product.variants)

-- The cards of a section have states of their own, `cards`.
unfoldable pub cards_view : Numbers → (Product → Card) → List Product → List Part
cards_view n cards [] = []
cards_view n cards (product ∷ products) =
    card_view n product (cards product) ++ cards_view n cards products

unfoldable pub supplier_section : Numbers → (Product → Card) → Group Product → List Part
unfolding cards_view
supplier_section n cards g =
    link ("/suppliers/" <> g.supplier_slug) g.supplier_name
    ∷ link ("/suppliers/" <> g.supplier_slug) "View all"
    ∷ cards_view n cards g.products

unfoldable pub sections_view : Numbers → (Product → Card) → List (Group Product) → List Part
unfolding supplier_section
sections_view n cards [] = []
sections_view n cards (g ∷ groups) = supplier_section n cards g ++ sections_view n cards groups

unfoldable pub search_bar : BrowsePage → List Part
search_bar p =
    field "Search products, categories…" p.search
    ∷ when (not (is_blank p.search)) (button "Clear search" false ∷ [])

-- `minPrice || maxPrice`
abbrev pub has_prices : BrowsePage → Bool
has_prices p = not (is_blank p.min_price) || not (is_blank p.max_price)

unfoldable pub filter_panel : BrowsePage → List Part
filter_panel p = when p.filter_open (
    text "Price range"
    ∷ text "£"
    ∷ field "Min" p.min_price
    ∷ text "to"
    ∷ text "£"
    ∷ field "Max" p.max_price
    ∷ when (has_prices p) (button "Clear" false ∷ []))

unfoldable pub sort_menu : BrowsePage → List Part
sort_menu p =
    button ("Sort: " <> sort_label p.sort) false
    ∷ when p.sort_open (
        button (sort_label best_match) false
        ∷ button (sort_label price_asc) false
        ∷ button (sort_label price_desc) false
        ∷ [])

unfoldable pub head_parts : ℕ → BrowsePage → List Part
unfolding sort_menu
head_parts count p =
    number count
      ∷ text (if count == 1 then "product" else "products")
      ∷ when (not (is_blank p.debounced_search)) (text ("for “" <> p.debounced_search <> "”") ∷ [])
    ++ sort_menu p
    ++ button "Filter" false ∷ when (has_prices p) (text "•" ∷ [])

unfoldable pub results_view :
    Numbers → (Product → Card) → Bool → List (Group Product) → BrowsePage → List Part
unfolding sections_view
results_view n cards loading groups p =
    if loading
    then text "Loading…" ∷ text "Fetching products from the catalogue." ∷ []
    else if is_empty groups
    then text "No results found."
      ∷ text (
          if is_blank p.debounced_search
          then "Try a different category or clear your filters."
          else "No products match “" <> p.debounced_search <> "”. Try a different term.")
      ∷ []
    else sections_view n cards groups

-- The page, between the navigation and the drawer, for the products of its last answer.
unfoldable pub browse_view :
    Amounts
    → Sort
    → Numbers
    → (Product → Card)
    → Bool
    → List Category
    → List Product
    → BrowsePage
    → List Part
unfolding category_tabs search_bar filter_panel head_parts results_view
browse_view a sort n cards loading categories products p =
    category_tabs (all_category ∷ categories)
    ++ search_bar p
    ++ filter_panel p
    ++ head_parts (length (filtered a sort products p.sort)) p
    ++ results_view n cards loading (grouped a sort products p.sort) p
