-- ===== src/Shell/Areas.antt =====
-- provena-web/src/components/admin/admin-shell.tsx and provena-web/src/components/supplier/sidebar.tsx:
-- the navigation of the two areas.
use provena.Base.{
  ℕ, String, Bool, false, ◌||◌, Option, none, some, List, [], ◌∷◌, ◌++◌, ◌<>◌, ltb, ◌==◌, string_eq,
  is_blank, starts_with, if◌then◌else◌,
}
use provena.Types.Auth.{UserProfile}
use provena.Markup.{Part, text, number, link, button, when}

pub record NavItem : Type 0 where
  pub href : String
  pub label : String

abbrev item : String → String → NavItem
item href label = record { href = href; label = label }

abbrev pub admin_items : List NavItem
admin_items =
    item "/admin/dashboard" "Overview"
    ∷ item "/admin/suppliers" "Suppliers"
    ∷ item "/admin/users" "Users"
    ∷ item "/admin/orders" "Orders"
    ∷ item "/admin/disputes" "Disputes"
    ∷ item "/admin/returns" "Returns"
    ∷ item "/admin/products" "Products"
    ∷ item "/admin/reviews" "Reviews"
    ∷ item "/admin/analytics" "Analytics"
    ∷ item "/admin/payouts" "Payouts"
    ∷ item "/admin/discounts" "Discounts"
    ∷ item "/admin/banners" "Banners"
    ∷ item "/admin/audit-log" "Audit log"
    ∷ []

abbrev pub supplier_items : List NavItem
supplier_items =
    item "/supplier/dashboard" "Overview"
    ∷ item "/supplier/products" "Products"
    ∷ item "/supplier/inventory" "Inventory"
    ∷ item "/supplier/orders" "Orders"
    ∷ item "/supplier/returns" "Returns"
    ∷ item "/supplier/payouts" "Payouts"
    ∷ item "/supplier/settings" "Settings"
    ∷ []

-- What the queries of the administrators' navigation count.
pub record Counts : Type 0 where
  pub pending : ℕ
  pub open_disputes : ℕ
  pub approved_returns : ℕ
  pub pending_reviews : ℕ

-- The badge of an item; `null` is `none`.
unfoldable pub admin_badge : Counts → String → Option ℕ
admin_badge c href =
    if href == "/admin/suppliers"
    then some c.pending
    else if href == "/admin/disputes"
    then some c.open_disputes
    else if href == "/admin/returns"
    then some c.approved_returns
    else if href == "/admin/reviews"
    then some c.pending_reviews
    else none

unfoldable pub supplier_badge : ℕ → String → Option ℕ
supplier_badge pending_returns href =
    if href == "/supplier/returns" then some pending_returns else some 0

-- `pathname === href || pathname.startsWith(href + '/')`
unfoldable pub active : String → NavItem → Bool
active pathname i = pathname == i.href || starts_with pathname (i.href <> "/")

unfoldable pub badge_parts : Option ℕ → List Part
badge_parts none = []
badge_parts (some n) = when (ltb 0 n) (number n ∷ [])

unfoldable pub items_view : (String → Option ℕ) → List NavItem → List Part
unfolding badge_parts
items_view badge [] = []
items_view badge (i ∷ is) = link i.href i.label ∷ badge_parts (badge i.href) ++ items_view badge is

-- `trim` is the text's method.
abbrev pub admin_name : (String → String) → Option UserProfile → String
admin_name trim none = "Platform Admin"
admin_name trim (some user) =
    if is_blank user.first_name
    then "Platform Admin"
    else trim (user.first_name <> " " <> user.last_name)

abbrev pub email_of : Option UserProfile → String
email_of none = ""
email_of (some user) = user.email

unfoldable pub admin_view : (String → String) → Option UserProfile → Counts → List Part
unfolding items_view
admin_view trim user c =
    link "/admin/dashboard" "Provena"
      ∷ text "Platform Admin"
      ∷ items_view (admin_badge c) admin_items
    ++ text (admin_name trim user) ∷ text (email_of user) ∷ button "Sign out" false ∷ []

abbrev pub supplier_name : Option UserProfile → String
supplier_name none = "Supplier"
supplier_name (some user) = user.first_name

unfoldable pub supplier_view : Option UserProfile → ℕ → List Part
unfolding items_view
supplier_view user pending_returns =
    link "/supplier/dashboard" "Provena"
      ∷ text "Supplier Portal"
      ∷ items_view (supplier_badge pending_returns) supplier_items
    ++ text (supplier_name user) ∷ text (email_of user) ∷ button "Sign out" false ∷ []
