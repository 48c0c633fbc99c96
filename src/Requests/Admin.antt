-- ===== src/Requests/Admin.antt =====
-- provena-web/src/lib/api/admin.ts.
use provena.Base.{ℕ, String, Bool, Option, none, some, List, [], ◌∷◌, ◌<>◌}
use provena.Requests.{
  Method, Value, text, texts, flag, null, Fields, no_body, json, HttpRequest, get_of, send_of,
  page_param,
}

pub data ProductStatus : Type 0 where
  draft active archived : ProductStatus

abbrev product_status_text : ProductStatus → String
product_status_text draft = "DRAFT"
product_status_text active = "ACTIVE"
product_status_text archived = "ARCHIVED"

pub data BulkProductAction : Type 0 where
  set_status : (slugs : List String) (status : ProductStatus) → BulkProductAction
  set_category : (slugs : List String) (category : Option String) → BulkProductAction
  set_featured : (slugs : List String) (is_featured : Bool) → BulkProductAction

abbrev or_null : Option String → Value
or_null none = null
or_null (some category) = text category

abbrev bulk_fields : BulkProductAction → Fields
bulk_fields (set_status slugs status) =
    ("action", text "set_status")
    ∷ ("slugs", texts slugs)
    ∷ ("status", text (product_status_text status))
    ∷ []
bulk_fields (set_category slugs category) =
    ("action", text "set_category") ∷ ("slugs", texts slugs) ∷ ("category", or_null category) ∷ []
bulk_fields (set_featured slugs is_featured) =
    ("action", text "set_featured")
    ∷ ("slugs", texts slugs)
    ∷ ("is_featured", flag is_featured)
    ∷ []

-- The sections on analytics, payouts and products.
pub data SalesCall : Type 0 where
  get_sales_summary get_revenue_over_time get_top_products : (params : Fields) → SalesCall
  get_supplier_performance : SalesCall
  get_admin_payouts : (params : Fields) → SalesCall
  process_admin_payout : (payout_id : String) → SalesCall
  get_supplier_payouts : (page : ℕ) → SalesCall
  get_admin_products : (params : Fields) → SalesCall
  admin_toggle_feature : (slug : String) → SalesCall
  admin_bulk_product_action : (payload : BulkProductAction) → SalesCall

unfoldable pub sales_request : SalesCall → HttpRequest
sales_request (get_sales_summary params) = get_of "/analytics/sales/summary/" params
sales_request (get_revenue_over_time params) = get_of "/analytics/sales/over-time/" params
sales_request (get_top_products params) = get_of "/analytics/products/top/" params
sales_request get_supplier_performance = get_of "/analytics/suppliers/" []
sales_request (get_admin_payouts params) = get_of "/payments/admin/payouts/" params
sales_request (process_admin_payout payout_id) =
    send_of Method.post ("/payments/admin/payouts/" <> payout_id <> "/process/") no_body
sales_request (get_supplier_payouts page) = get_of "/payments/payouts/" (page_param page)
sales_request (get_admin_products params) = get_of "/catalogue/admin/products/" params
sales_request (admin_toggle_feature slug) =
    send_of Method.post ("/catalogue/admin/products/" <> slug <> "/feature/") no_body
sales_request (admin_bulk_product_action payload) =
    send_of Method.post "/catalogue/admin/products/bulk/" (json (bulk_fields payload))

-- The sections on users and reviews, and those after them.
pub data UserCall : Type 0 where
  get_admin_users : (params : Fields) → UserCall
  suspend_user activate_user delete_user : (user_id : String) → UserCall
  get_admin_reviews : (params : Fields) → UserCall
  admin_approve_review admin_delete_review : (id : String) → UserCall
  get_audit_log : (params : Fields) → UserCall
  get_banners : UserCall
  create_banner : (payload : Fields) → UserCall
  update_banner : (id : String) (payload : Fields) → UserCall
  delete_banner : (id : String) → UserCall
  get_admin_discounts : (page : ℕ) → UserCall
  create_discount : (payload : Fields) → UserCall
  update_discount : (id : String) (payload : Fields) → UserCall

unfoldable pub user_request : UserCall → HttpRequest
user_request (get_admin_users params) = get_of "/auth/admin/users/" params
user_request (suspend_user user_id) =
    send_of Method.post ("/auth/admin/users/" <> user_id <> "/suspend/") no_body
user_request (activate_user user_id) =
    send_of Method.post ("/auth/admin/users/" <> user_id <> "/activate/") no_body
user_request (delete_user user_id) =
    send_of Method.delete ("/auth/admin/users/" <> user_id <> "/") no_body
user_request (get_admin_reviews params) = get_of "/marketplace/admin/reviews/" params
user_request (admin_approve_review id) =
    send_of Method.post ("/marketplace/admin/reviews/" <> id <> "/approve/") no_body
user_request (admin_delete_review id) =
    send_of Method.delete ("/marketplace/admin/reviews/" <> id <> "/") no_body
user_request (get_audit_log params) = get_of "/auth/admin/audit-log/" params
user_request get_banners = get_of "/catalogue/admin/banners/" []
user_request (create_banner payload) =
    send_of Method.post "/catalogue/admin/banners/" (json payload)
user_request (update_banner id payload) =
    send_of Method.patch ("/catalogue/admin/banners/" <> id <> "/") (json payload)
user_request (delete_banner id) =
    send_of Method.delete ("/catalogue/admin/banners/" <> id <> "/") no_body
user_request (get_admin_discounts page) = get_of "/discounts/admin/" (page_param page)
user_request (create_discount payload) = send_of Method.post "/discounts/admin/" (json payload)
user_request (update_discount id payload) =
    send_of Method.patch ("/discounts/admin/" <> id <> "/") (json payload)
