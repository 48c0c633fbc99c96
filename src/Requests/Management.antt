-- ===== src/Requests/Management.antt =====
-- provena-web/src/lib/api/suppliers.ts and inventory.ts.
use provena.Base.{ℕ, String, Bool, Option, [], ◌∷◌, ◌<>◌, ℤ, if◌then◌else◌}
use provena.Requests.{
  Method, text, number, Fields, Body, json, HttpRequest, get_of, send_of, page_param, or_empty,
}

pub data SupplierCall : Type 0 where
  get_public_suppliers : SupplierCall
  get_public_supplier : (slug : String) → SupplierCall
  register_supplier : (payload : Fields) → SupplierCall
  get_my_supplier_profile : SupplierCall
  update_my_supplier_profile : (payload : Fields) → SupplierCall
  get_my_performance : SupplierCall
  get_stripe_connect_url : SupplierCall
  get_admin_suppliers : (params : Fields) → SupplierCall
  get_admin_supplier : (id : String) → SupplierCall
  approve_supplier reject_supplier suspend_supplier :
      (id : String) (reason : Option String) → SupplierCall
  update_supplier_commission : (id commission_rate : String) → SupplierCall

abbrev reason_body : Option String → Body
reason_body reason = json (("reason", or_empty reason) ∷ [])

unfoldable pub supplier_request : SupplierCall → HttpRequest
supplier_request get_public_suppliers = get_of "/suppliers/" []
supplier_request (get_public_supplier slug) = get_of ("/suppliers/" <> slug <> "/") []
supplier_request (register_supplier payload) =
    send_of Method.post "/suppliers/register/" (json payload)
supplier_request get_my_supplier_profile = get_of "/suppliers/me/" []
supplier_request (update_my_supplier_profile payload) =
    send_of Method.patch "/suppliers/me/" (json payload)
supplier_request get_my_performance = get_of "/suppliers/me/performance/" []
supplier_request get_stripe_connect_url = get_of "/suppliers/me/stripe-connect/" []
supplier_request (get_admin_suppliers params) = get_of "/suppliers/admin/" params
supplier_request (get_admin_supplier id) = get_of ("/suppliers/admin/" <> id <> "/") []
supplier_request (approve_supplier id reason) =
    send_of Method.post ("/suppliers/admin/" <> id <> "/approve/") (reason_body reason)
supplier_request (reject_supplier id reason) =
    send_of Method.post ("/suppliers/admin/" <> id <> "/reject/") (reason_body reason)
supplier_request (suspend_supplier id reason) =
    send_of Method.post ("/suppliers/admin/" <> id <> "/suspend/") (reason_body reason)
supplier_request (update_supplier_commission id commission_rate) =
    send_of Method.patch ("/suppliers/admin/" <> id <> "/")
      (json (("commission_rate", text commission_rate) ∷ []))

pub data StockCall : Type 0 where
  get_inventory : (low_stock : Bool) → StockCall
  get_stock_level : (variant_id : String) → StockCall
  set_threshold : (variant_id : String) (threshold : ℤ) → StockCall
  receive_stock adjust_stock : (variant_id : String) (payload : Fields) → StockCall
  get_stock_lots get_stock_movements : (variant_id : String) (page : ℕ) → StockCall

abbrev base : String
base = "/inventory"

unfoldable pub stock_request : StockCall → HttpRequest
stock_request (get_inventory low_stock) =
    get_of (base <> "/") (if low_stock then ("low_stock", text "true") ∷ [] else [])
stock_request (get_stock_level variant_id) = get_of (base <> "/" <> variant_id <> "/") []
stock_request (set_threshold variant_id threshold) =
    send_of Method.patch (base <> "/" <> variant_id <> "/")
      (json (("low_stock_threshold", number threshold) ∷ []))
stock_request (receive_stock variant_id payload) =
    send_of Method.post (base <> "/" <> variant_id <> "/receive/") (json payload)
stock_request (adjust_stock variant_id payload) =
    send_of Method.post (base <> "/" <> variant_id <> "/adjust/") (json payload)
stock_request (get_stock_lots variant_id page) =
    get_of (base <> "/" <> variant_id <> "/lots/") (page_param page)
stock_request (get_stock_movements variant_id page) =
    get_of (base <> "/" <> variant_id <> "/movements/") (page_param page)
