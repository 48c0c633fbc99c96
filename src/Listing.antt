-- ===== src/Listing.antt =====
-- provena-web/src/app/supplier/products/page.tsx: a supplier's products, with the dialog that imports
-- products from a file. The types of the answers are those of provena-web/src/lib/api/bulk-upload.ts.
-- Listing/View is what is shown.
pub mod View
pub mod Importing
use provena.Base.{
  ℕ, String, Bool, true, false, Option, none, some, List, [], ◌∷◌, ◌<>◌, ◌==◌, string_eq, keep, not,
  is_empty, if◌then◌else◌,
}
use provena.Requests.Shop.{
  UploadCall, preview_upload, confirm_upload, CatalogueCall, get_my_products,
}
use provena.Browse.{toggle}

pub record UploadVariantPreview : Type 0 where
  pub name : String
  pub sku : String
  pub price : String
  pub compare_at_price : Option String
  pub weight_grams : ℕ

pub record UploadProductPreview : Type 0 where
  pub name : String
  pub description : String
  pub category : Option String
  pub image_url : Option String
  pub variants : List UploadVariantPreview

pub record UploadError : Type 0 where
  pub row : ℕ
  pub column : String
  pub message : String

pub record PreviewResult : Type 0 where
  pub valid : Bool
  pub products : Option (List UploadProductPreview)
  pub row_count : Option ℕ
  pub product_count : Option ℕ
  pub errors : Option (List UploadError)

pub data UploadStep : Type 0 where
  pick preview errors success : UploadStep

-- The dialog; a file is its name. `previewing` and `confirming` are the calls without an answer.
pub record UploadModal : Type 0 where
  pub step : UploadStep
  pub file : Option String
  pub preview : Option PreviewResult
  pub created_count : ℕ
  pub expanded : List String
  pub previewing : List String
  pub confirming : List String

abbrev pub opened : UploadModal
opened = record {
  step = pick;
  file = none;
  preview = none;
  created_count = 0;
  expanded = [];
  previewing = [];
  confirming = [];
}

-- `previewed` and `imported` are answers to the calls for a file; `no_file` is a choice that was
-- cancelled.
pub data Event : Type 0 where
  choose : (file : String) → Event
  no_file : Event
  previewed : (file : String) (result : PreviewResult) → Event
  preview_refused : (file : String) → Event
  press_product : (name : String) → Event
  back : Event
  press_import : Event
  imported : (file : String) (created : ℕ) → Event
  import_refused : (file : String) → Event

abbrev pub without : String → List String → List String
without file files = keep (λ f. not (f == file)) files

unfoldable pub handle_file_change : String → UploadModal → UploadModal
handle_file_change f u = record u { file = some f; previewing = f ∷ u.previewing }

unfoldable pub preview_succeeded : PreviewResult → UploadModal → UploadModal
preview_succeeded result u = record u {
  preview = some result;
  step = if result.valid then preview else errors;
}

unfoldable pub confirm_succeeded : ℕ → UploadModal → UploadModal
confirm_succeeded created u = record u { created_count = created; step = success }

unfoldable pub toggle_expand : String → UploadModal → UploadModal
unfolding toggle
toggle_expand name u = record u { expanded = toggle name u.expanded }

-- `file && confirmMutation.mutate(file)`, by a button that is disabled while such a call has no answer.
abbrev pub confirm : Option String → UploadModal → UploadModal
confirm none u = u
confirm (some f) u = if is_empty u.confirming then record u { confirming = f ∷ u.confirming } else u

unfoldable pub on_event : Event → UploadModal → UploadModal
unfolding handle_file_change preview_succeeded confirm_succeeded toggle_expand
on_event (choose f) u = handle_file_change f u
on_event no_file u = u
on_event (previewed f result) u =
    preview_succeeded result (record u { previewing = without f u.previewing })
on_event (preview_refused f) u = record u { previewing = without f u.previewing }
on_event (press_product name) u = toggle_expand name u
on_event back u = record u { step = pick; preview = none; file = none }
on_event press_import u = confirm u.file u
on_event (imported f created) u =
    confirm_succeeded created (record u { confirming = without f u.confirming })
on_event (import_refused f) u = record u { confirming = without f u.confirming }

-- The calls that an event makes.
abbrev pub confirm_call : Option String → List String → Option UploadCall
confirm_call none confirming = none
confirm_call (some f) confirming = if is_empty confirming then some (confirm_upload f) else none

unfoldable pub upload_call : Event → UploadModal → Option UploadCall
upload_call (choose f) u = some (preview_upload f)
upload_call press_import u = confirm_call u.file u.confirming
upload_call no_file u = none
upload_call (previewed f result) u = none
upload_call (preview_refused f) u = none
upload_call (press_product name) u = none
upload_call back u = none
upload_call (imported f created) u = none
upload_call (import_refused f) u = none

-- The page. Closing the dialog, or leaving it by its last button, takes its state with it.
pub record ProductsPage : Type 0 where
  pub open_menu : Option String
  pub page : ℕ
  pub upload : Option UploadModal

abbrev pub initial : ProductsPage
initial = record { open_menu = none; page = 1; upload = none }

abbrev pub is_open : Option String → String → Bool
is_open none id = false
is_open (some m) id = m == id

-- `menu_edit` and `menu_archive` are the buttons of a product's menu, which do nothing else yet.
pub data PageEvent : Type 0 where
  press_menu : (product_id : String) → PageEvent
  close_menu menu_edit menu_archive open_upload close_upload done_upload : PageEvent
  change_page : ℕ → PageEvent
  in_upload : Event → PageEvent

abbrev in_dialog : Event → Option UploadModal → Option UploadModal
in_dialog ev none = none
in_dialog ev (some u) = some (on_event ev u)

unfoldable pub on_page_event : PageEvent → ProductsPage → ProductsPage
on_page_event (press_menu id) p = record p {
  open_menu = if is_open p.open_menu id then none else some id;
}
on_page_event close_menu p = record p { open_menu = none }
on_page_event menu_edit p = record p { open_menu = none }
on_page_event menu_archive p = record p { open_menu = none }
on_page_event open_upload p = record p { upload = some opened }
on_page_event close_upload p = record p { upload = none }
on_page_event done_upload p = record p { upload = none }
on_page_event (change_page n) p = record p { page = n; open_menu = none }
on_page_event (in_upload ev) p = record p { upload = in_dialog ev p.upload }

-- The query's function takes no page.
unfoldable pub my_products_call : ProductsPage → CatalogueCall
my_products_call p = get_my_products

-- `getUploadTemplate`: where the template stands, under the client's base address.
abbrev or_blank : Option String → String
or_blank none = ""
or_blank (some s) = s

unfoldable pub get_upload_template : Option String → String
get_upload_template base_url = or_blank base_url <> "/catalogue/products/upload/template/"
