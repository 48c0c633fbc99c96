-- ===== src/Listing/View.antt =====
-- What the page of provena-web/src/app/supplier/products/page.tsx shows, with its dialog.
use provena.Base.{
  ℕ, String, Bool, false, not, Option, none, some, List, [], ◌∷◌, ◌++◌, ◌<>◌, ◌==◌, string_eq,
  nat_eq, is_empty, any, length, if◌then◌else◌,
}
use provena.Types.Catalogue.{Product, ProductVariant, ProductStatus, active, draft, archived}
use provena.Orders.Labels.{status_badge}
use provena.Paging.{pagination, Bar}
use provena.Goods.{first, with_text}
use provena.Markup.{Part, text, number, link, button, when}
use provena.Listing.{
  UploadVariantPreview, UploadProductPreview, UploadError, PreviewResult, UploadStep, pick, errors,
  success, UploadModal, ProductsPage, is_open, get_upload_template,
}

-- `{n} thing{n !== 1 ? 's' : ''}`, where the number may be missing.
abbrev plural : Option ℕ → String → List Part
plural none word = text (word <> "s") ∷ []
plural (some n) word = number n ∷ text (if n == 1 then word else word <> "s") ∷ []

abbrev pub product_count_of : Option PreviewResult → Option ℕ
product_count_of none = none
product_count_of (some r) = r.product_count

abbrev pub row_count_of : Option PreviewResult → Option ℕ
row_count_of none = none
row_count_of (some r) = r.row_count

abbrev list_of {ℓ} : {A : Type ℓ} → Option (List A) → List A
list_of none = []
list_of (some l) = l

abbrev pub products_of : Option PreviewResult → List UploadProductPreview
products_of none = []
products_of (some r) = list_of r.products

abbrev pub errors_of : Option PreviewResult → List UploadError
errors_of none = []
errors_of (some r) = list_of r.errors

unfoldable pub title_of : UploadStep → String
title_of pick = "Upload products"
title_of UploadStep.preview = "Review import"
title_of errors = "Fix errors before importing"
title_of success = "Import complete"

-- The answer of a preview that was refused: `none` is no error, and a refusal may have a text.
abbrev error_parts : Option (Option String) → List Part
error_parts none = []
error_parts (some none) = text "Could not parse the file." ∷ []
error_parts (some (some detail)) = text detail ∷ []

unfoldable pub pick_parts : Bool → Option (Option String) → List Part
pick_parts parsing error =
    text
      "Upload a CSV, XLSX, or XLS file to create multiple products at once. All imported products will be saved as drafts for you to review and publish individually."
    ∷ text (if parsing then "Parsing file…" else "Click to choose a file")
    ∷ text "CSV, XLSX or XLS · max 500 rows · 5 MB"
    ∷ error_parts error

unfoldable pub variant_rows : List UploadVariantPreview → List Part
variant_rows [] = []
variant_rows (v ∷ variants) =
    text v.name ∷ text v.sku ∷ text ("£" <> v.price) ∷ variant_rows variants

unfoldable pub product_rows : List String → List UploadProductPreview → List Part
unfolding variant_rows
product_rows expanded [] = []
product_rows expanded (p ∷ products) =
    button p.name false ∷ with_text p.category (λ c. text c ∷ [])
    ++ plural (some (length p.variants)) "variant"
    ++ when (any (λ name. name == p.name) expanded) (variant_rows p.variants)
    ++ product_rows expanded products

unfoldable pub preview_parts : UploadModal → List Part
unfolding product_rows
preview_parts u =
    plural (product_count_of u.preview) "product"
    ++ plural (row_count_of u.preview) "variant"
    ++ text "will be created as drafts." ∷ product_rows u.expanded (products_of u.preview)

unfoldable pub error_rows : List UploadError → List Part
error_rows [] = []
error_rows (e ∷ es) = number e.row ∷ text e.column ∷ text e.message ∷ error_rows es

unfoldable pub errors_parts : UploadModal → List Part
unfolding error_rows
errors_parts u =
    plural (some (length (errors_of u.preview))) "error"
    ++ text "found. Fix your file and re-upload."
      ∷ text "Row"
      ∷ text "Column"
      ∷ text "Issue"
      ∷ error_rows (errors_of u.preview)

unfoldable pub success_parts : UploadModal → List Part
success_parts u =
    plural (some u.created_count) "product"
    ++ text "created."
      ∷ text "They're saved as drafts. Publish them from the products list when ready."
      ∷ []

unfoldable pub body_parts : Bool → Option (Option String) → UploadModal → UploadStep → List Part
unfolding pick_parts preview_parts errors_parts success_parts
body_parts parsing error u pick = pick_parts parsing error
body_parts parsing error u UploadStep.preview = preview_parts u
body_parts parsing error u errors = errors_parts u
body_parts parsing error u success = success_parts u

import_label : (ℕ → String) → Option ℕ → String
import_label digits none = "Import undefined products"
import_label digits (some n) = "Import " <> digits n <> (if n == 1 then " product" else " products")

unfoldable pub foot_parts : (ℕ → String) → UploadModal → UploadStep → List Part
unfolding import_label
foot_parts digits u pick = button "Cancel" false ∷ []
foot_parts digits u UploadStep.preview =
    let importing = not (is_empty u.confirming) in
    button "← Back" false
    ∷ button "Cancel" false
    ∷ button (if importing then "Importing…" else import_label digits (product_count_of u.preview))
        importing
    ∷ []
foot_parts digits u errors = button "← Back" false ∷ button "Cancel" false ∷ []
foot_parts digits u success = button "View products" false ∷ []

-- The dialog; `digits` prints a number, and `parsing` and `error` are about the latest preview.
unfoldable pub upload_view : (ℕ → String) → Bool → Option (Option String) → UploadModal → List Part
unfolding body_parts foot_parts
upload_view digits parsing error u =
    text (title_of u.step) ∷ body_parts parsing error u u.step ++ foot_parts digits u u.step

abbrev status_text : ProductStatus → String
status_text active = "ACTIVE"
status_text draft = "DRAFT"
status_text archived = "ARCHIVED"

abbrev or_dash : Option String → String
or_dash none = "—"
or_dash (some s) = s

abbrev sku_of : Option ProductVariant → Option String
sku_of none = none
sku_of (some v) = some v.sku

abbrev price_of : Option ProductVariant → Option String
price_of none = none
price_of (some v) = some v.price

unfoldable pub product_row : ProductsPage → Product → List Part
product_row p product =
    text product.name
    ∷ text (or_dash (sku_of (first product.variants)))
    ∷ text (or_dash product.category_name)
    ∷ text ("£" <> or_dash (price_of (first product.variants)))
    ∷ text (status_badge (status_text product.status)).1
    ∷ button "Product actions" false
    ∷ when (is_open p.open_menu product.id)
        (button "Edit product" false ∷ button "Archive" false ∷ [])

unfoldable pub product_table : ProductsPage → List Product → List Part
unfolding product_row
product_table p [] = []
product_table p (product ∷ products) = product_row p product ++ product_table p products

abbrev bar_parts : Option Bar → List Part
bar_parts none = []
bar_parts (some bar) =
    number bar.from
    ∷ number bar.to
    ∷ number bar.of
    ∷ button "Previous page" bar.previous_disabled
    ∷ button "Next page" bar.next_disabled
    ∷ []

abbrev dialog_parts : (ℕ → String) → Bool → Option (Option String) → Option UploadModal → List Part
dialog_parts digits parsing error none = []
dialog_parts digits parsing error (some u) = upload_view digits parsing error u

unfoldable pub products_view :
    (ℕ → String)
    → Option String
    → Bool
    → Option (Option String)
    → Bool
    → List Product
    → ℕ
    → ProductsPage
    → List Part
unfolding product_table
products_view digits base_url parsing error pending products total_count p =
    dialog_parts digits parsing error p.upload
    ++ text "Products" ∷ plural (some total_count) "listing"
    ++ link (get_upload_template base_url) "Download template"
      ∷ button "Upload products" false
      ∷ button "New product" false
      ∷ (if pending
          then text "Loading products…" ∷ []
          else if is_empty products
          then text "No products yet. Add your first listing." ∷ []
          else text "Product"
            ∷ text "SKU"
            ∷ text "Category"
            ∷ text "Price"
            ∷ text "Status"
            ∷ product_table p products)
    ++ bar_parts (pagination p.page total_count 20)
