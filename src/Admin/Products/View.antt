-- ===== src/Admin/Products/View.antt =====
-- What the page of provena-web/src/app/admin/products/page.tsx shows.
use provena.Base.{
  String, Bool, true, false, Option, none, some, List, [], ◌∷◌, ◌++◌, ◌<>◌, ◌==◌, string_eq, nat_eq,
  is_blank, is_empty, keep, length, ltb, if◌then◌else◌,
}
use provena.Types.Catalogue.{
  Product, ProductVariant, ProductStatus, active, draft, archived, Category, category,
}
use provena.Goods.{first}
use provena.Markup.{Part, text, number, button, field, when}
use provena.Admin.Products.{
  ProductsPage, StatusFilter, all, only, filtered, has, featured_count, status_key,
}

abbrev tabs : List (StatusFilter × String)
tabs =
    (all, "All")
    ∷ (only active, "Active")
    ∷ (only draft, "Drafts")
    ∷ (only archived, "Archived")
    ∷ []

abbrev in_tab : StatusFilter → Product → Bool
in_tab all q = true
in_tab (only status) q = status_key q.status == status_key status

unfoldable pub tab_parts : List Product → List (StatusFilter × String) → List Part
tab_parts products [] = []
tab_parts products ((key, label) ∷ rest) =
    let count = length (keep (in_tab key) products) in
    button label false ∷ when (ltb 0 count) (number count ∷ []) ++ tab_parts products rest

category_options : List Category → List Part
category_options [] = []
category_options
      (category id name slug description image_url parent_slug children position is_active n
        ∷ categories) =
    text name ∷ category_options categories

-- The bar of the bulk actions.
unfoldable pub bulk_bar : Bool → List Category → ProductsPage → List Part
unfolding category_options
bulk_bar pending categories p = when (ltb 0 (length p.selected)) (
    number (length p.selected)
      ∷ text "selected"
      ∷ text "Set status…"
      ∷ text "Active"
      ∷ text "Draft"
      ∷ text "Archived"
      ∷ text "Set category…"
      ∷ text "— Remove category"
      ∷ category_options categories
    ++ button "Feature" pending ∷ button "Unfeature" pending ∷ button "Clear selection" false ∷ [])

abbrev or_dash : Option String → String
or_dash none = "-"
or_dash (some s) = s

sku_parts : Option ProductVariant → List Part
sku_parts none = []
sku_parts (some v) = text v.sku ∷ []

price_text : Option ProductVariant → String
price_text none = "-"
price_text (some v) = "£" <> v.price

abbrev low_status : ProductStatus → String
low_status active = "active"
low_status draft = "draft"
low_status archived = "archived"

-- A row with its check box, as a field that is on or off.
unfoldable pub product_row : Bool → ProductsPage → Product → List Part
unfolding sku_parts price_text
product_row pending p q =
    field q.slug (if has q.slug p.selected then "on" else "")
      ∷ text q.name
      ∷ sku_parts (first q.variants)
    ++ text q.supplier_name
      ∷ text (or_dash q.category_name)
      ∷ text (price_text (first q.variants))
      ∷ text (low_status q.status)
      ∷ button (if q.is_featured then "Remove from homepage" else "Feature on homepage") pending
      ∷ []

unfoldable pub product_rows : Bool → ProductsPage → List Product → List Part
unfolding product_row
product_rows pending p [] = []
product_rows pending p (q ∷ products) = product_row pending p q ++ product_rows pending p products

unfoldable pub products_view :
    (String → String → Bool) → Bool → Bool → Bool → List Category → ProductsPage → List Part
unfolding tab_parts bulk_bar product_rows
products_view contains loading acting featuring categories p =
    let rows = filtered contains p in
    text "Products"
      ∷ number (length p.products)
      ∷ text (if length p.products == 1 then "product" else "products")
      ∷ when (ltb 0 (featured_count p.products))
          (number (featured_count p.products) ∷ text "featured" ∷ [])
    ++ field "Search products…" p.search ∷ tab_parts p.products tabs
    ++ bulk_bar acting categories p
    ++ (if loading
        then text "Loading products…" ∷ []
        else product_rows featuring p rows
          ++ when (is_empty rows) (
              text
                (if is_blank p.search then "No products yet." else "No products match your search.")
              ∷ []))
