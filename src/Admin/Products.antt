-- ===== src/Admin/Products.antt =====
-- provena-web/src/app/admin/products/page.tsx: all products, of which an administrator selects some and
-- changes them together. Products/View is what the page shows.
pub mod View
pub mod Selection
use provena.Base.{
  ℕ, String, Bool, true, false, ◌&&◌, ◌||◌, not, Option, none, some, List, [], ◌∷◌, ◌++◌, map, ◌==◌,
  string_eq, is_blank, is_empty, any, keep, length, if◌then◌else◌,
}
use provena.Types.Catalogue.{Product, ProductStatus, active, draft, archived}
use provena.Requests.{text}
use provena.Requests.Admin as Requested
use provena.Requests.Admin.{
  SalesCall, get_admin_products, admin_toggle_feature, admin_bulk_product_action, BulkProductAction,
  set_status, set_category, set_featured,
}

pub data StatusFilter : Type 0 where
  all : StatusFilter
  only : ProductStatus → StatusFilter

-- A `Set` of slugs, in the order in which they were added.
unfoldable pub has : String → List String → Bool
has slug set = any (λ s. s == slug) set

unfoldable pub add : String → List String → List String
unfolding has
add slug set = if has slug set then set else set ++ slug ∷ []

unfoldable pub delete : String → List String → List String
delete slug set = keep (λ s. not (s == slug)) set

unfoldable pub add_all : List String → List String → List String
unfolding add
add_all [] set = set
add_all (slug ∷ slugs) set = add_all slugs (add slug set)

unfoldable pub delete_all : List String → List String → List String
unfolding delete
delete_all [] set = set
delete_all (slug ∷ slugs) set = delete_all slugs (delete slug set)

unfoldable pub toggle_row : String → List String → List String
unfolding has delete add
toggle_row slug set = if has slug set then delete slug set else add slug set

abbrev pub every : (String → Bool) → List String → Bool
every test [] = true
every test (s ∷ l) = test s && every test l

pub record ProductsPage : Type 0 where
  pub status_filter : StatusFilter
  pub search : String
  pub selected : List String
  pub products : List Product

abbrev pub initial : ProductsPage
initial = record { status_filter = all; search = ""; selected = []; products = [] }

-- `text.toLowerCase().includes(search.toLowerCase())` is the language's.
module _ (contains : String → String → Bool) where
  unfoldable pub filtered : ProductsPage → List Product
  filtered p =
      if is_blank p.search
      then p.products
      else keep (λ (q : Product). contains q.name p.search || contains q.supplier_name p.search)
          p.products

  unfoldable pub all_visible : ProductsPage → List String
  unfolding filtered
  all_visible p = map (λ (q : Product). q.slug) (filtered p)

  unfoldable pub all_checked : ProductsPage → Bool
  unfolding all_visible has
  all_checked p = not (is_empty (all_visible p)) && every (λ s. has s p.selected) (all_visible p)

  unfoldable pub some_checked : ProductsPage → Bool
  unfolding all_visible has all_checked
  some_checked p = not (all_checked p) && any (λ s. has s p.selected) (all_visible p)

  unfoldable pub toggle_all : ProductsPage → List String
  unfolding all_checked all_visible delete_all add_all
  toggle_all p =
      if all_checked p
      then delete_all (all_visible p) p.selected
      else add_all (all_visible p) p.selected

unfoldable pub status_key : ProductStatus → String
status_key active = "ACTIVE"
status_key draft = "DRAFT"
status_key archived = "ARCHIVED"

unfoldable pub products_call : ProductsPage → SalesCall
unfolding status_key
products_call p =
    get_admin_products
      (elim p.status_filter [ all ↦ [] | only status ↦ ("status", text (status_key status)) ∷ [] ])

-- `bulk_ended` is the success of a bulk action, `listed` an answer of the query.
pub data Event : Type 0 where
  choose_tab : StatusFilter → Event
  type_search : (search : String) → Event
  check_row : (slug : String) → Event
  check_all clear bulk_ended : Event
  listed : (products : List Product) → Event

abbrev same_filter : StatusFilter → StatusFilter → Bool
same_filter all all = true
same_filter all (only t) = false
same_filter (only s) all = false
same_filter (only s) (only t) = status_key s == status_key t

-- Another tab is another query, whose products are not there yet.
unfoldable pub on_event : (String → String → Bool) → Event → ProductsPage → ProductsPage
unfolding toggle_row toggle_all status_key
on_event contains (choose_tab key) p = record p {
  status_filter = key;
  selected = [];
  products = if same_filter p.status_filter key then p.products else [];
}
on_event contains (type_search search) p = record p { search = search }
on_event contains (check_row slug) p = record p { selected = toggle_row slug p.selected }
on_event contains check_all p = record p { selected = toggle_all contains p }
on_event contains clear p = record p { selected = [] }
on_event contains bulk_ended p = record p { selected = [] }
on_event contains (listed products) p = record p { products = products }

-- The bulk actions: the two lists, of which the one for categories has an entry for none, and the two
-- buttons. A value that is empty asks for nothing.
abbrev requested : ProductStatus → Requested.ProductStatus
requested active = Requested.active
requested draft = Requested.draft
requested archived = Requested.archived

unfoldable pub status_action : ProductStatus → ProductsPage → SalesCall
status_action status p = admin_bulk_product_action (set_status p.selected (requested status))

unfoldable pub category_action : String → ProductsPage → Option SalesCall
category_action val p =
    if is_blank val
    then none
    else some (
        admin_bulk_product_action
          (set_category p.selected (if val == "__none__" then none else some val)))

unfoldable pub featured_action : Bool → ProductsPage → SalesCall
featured_action is_featured p = admin_bulk_product_action (set_featured p.selected is_featured)

abbrev pub toggle_feature : Product → SalesCall
toggle_feature q = admin_toggle_feature q.slug

unfoldable pub featured_count : List Product → ℕ
featured_count products = length (keep (λ (q : Product). q.is_featured) products)
