-- ===== src/Requests/Ordering.antt =====
-- provena-web/src/lib/api/orders.ts, by whom the functions are for.
use provena.Base.{ℕ, String, Option, none, some, List, [], ◌∷◌, ◌++◌, ◌<>◌, is_empty, if◌then◌else◌}
use provena.Requests.{
  Method, text, item_list, Fields, no_body, json, HttpRequest, get_of, send_of, page_param,
  or_empty, if_given,
}

pub data BuyerCall : Type 0 where
  create_payment_intent : (order_reference : String) → BuyerCall
  get_payments : (page : ℕ) → BuyerCall
  get_orders : (page : ℕ) → BuyerCall
  get_order : (reference : String) → BuyerCall
  place_order : (payload : Fields) → BuyerCall
  cancel_order : (reference : String) → BuyerCall
  request_return :
      (reference sub_order_id reason : String) (items : Option (List (String × ℕ))) → BuyerCall
  raise_dispute : (reference sub_order_id reason : String) → BuyerCall
  get_ws_ticket : BuyerCall
  validate_discount : (code : String) → BuyerCall

-- `items && items.length ? items : undefined`
abbrev item_field : Option (List (String × ℕ)) → Fields
item_field none = []
item_field (some items) = if is_empty items then [] else ("items", item_list items) ∷ []

unfoldable pub buyer_request : BuyerCall → HttpRequest
buyer_request (create_payment_intent order_reference) =
    send_of Method.post "/payments/create-intent/"
      (json (("order_reference", text order_reference) ∷ []))
buyer_request (get_payments page) = get_of "/payments/" (page_param page)
buyer_request (get_orders page) = get_of "/orders/" (page_param page)
buyer_request (get_order reference) = get_of ("/orders/" <> reference <> "/") []
buyer_request (place_order payload) = send_of Method.post "/orders/" (json payload)
buyer_request (cancel_order reference) =
    send_of Method.post ("/orders/" <> reference <> "/cancel/") no_body
buyer_request (request_return reference sub_order_id reason items) =
    send_of Method.post ("/orders/" <> reference <> "/sub-orders/" <> sub_order_id <> "/return/")
      (json (("reason", text reason) ∷ item_field items))
buyer_request (raise_dispute reference sub_order_id reason) =
    send_of Method.post ("/orders/" <> reference <> "/sub-orders/" <> sub_order_id <> "/dispute/")
      (json (("reason", text reason) ∷ []))
buyer_request get_ws_ticket = send_of Method.post "/orders/ws-ticket/" no_body
buyer_request (validate_discount code) =
    send_of Method.post "/discounts/validate/" (json (("code", text code) ∷ []))

pub data SellerCall : Type 0 where
  get_supplier_returns : (return_status : Option String) (page : ℕ) → SellerCall
  supplier_approve_return : (id : String) (notes : Option String) → SellerCall
  supplier_reject_return : (id : String) (notes : Option String) → SellerCall
  get_supplier_sub_orders : (page : ℕ) → SellerCall
  confirm_sub_order : (sub_order_id : String) → SellerCall
  dispatch_sub_order : (sub_order_id : String) (tracking_number : Option String) → SellerCall

unfoldable pub seller_request : SellerCall → HttpRequest
seller_request (get_supplier_returns return_status page) =
    get_of "/orders/supplier/returns/" (page_param page ++ if_given "status" return_status)
seller_request (supplier_approve_return id notes) =
    send_of Method.post ("/orders/supplier/returns/" <> id <> "/approve/")
      (json (("notes", or_empty notes) ∷ []))
seller_request (supplier_reject_return id notes) =
    send_of Method.post ("/orders/supplier/returns/" <> id <> "/reject/")
      (json (("notes", or_empty notes) ∷ []))
seller_request (get_supplier_sub_orders page) = get_of "/orders/supplier/" (page_param page)
seller_request (confirm_sub_order sub_order_id) =
    send_of Method.post ("/orders/supplier/" <> sub_order_id <> "/confirm/") no_body
seller_request (dispatch_sub_order sub_order_id tracking_number) =
    send_of Method.post ("/orders/supplier/" <> sub_order_id <> "/dispatch/")
      (json (("tracking_number", or_empty tracking_number) ∷ []))

-- Amounts are decimal texts.
pub data OverseerCall : Type 0 where
  get_admin_returns : (return_status : Option String) (page : ℕ) → OverseerCall
  admin_process_return_refund : (id : String) (amount : Option String) → OverseerCall
  get_admin_orders : (page : ℕ) → OverseerCall
  get_admin_order : (reference : String) → OverseerCall
  admin_refund_payment : (payment_id : String) (amount : Option String) → OverseerCall
  get_admin_disputes : (dispute_status : Option String) → OverseerCall
  admin_resolve_dispute : (id resolution : String) → OverseerCall
  admin_reject_dispute : (id resolution : String) → OverseerCall

-- `amount !== undefined ? { amount } : {}`
abbrev amount_field : Option String → Fields
amount_field none = []
amount_field (some amount) = ("amount", text amount) ∷ []

unfoldable pub overseer_request : OverseerCall → HttpRequest
overseer_request (get_admin_returns return_status page) =
    get_of "/orders/admin/returns/" (page_param page ++ if_given "status" return_status)
overseer_request (admin_process_return_refund id amount) =
    send_of Method.post ("/orders/admin/returns/" <> id <> "/refund/") (json (amount_field amount))
overseer_request (get_admin_orders page) = get_of "/orders/admin/" (page_param page)
overseer_request (get_admin_order reference) = get_of ("/orders/admin/" <> reference <> "/") []
overseer_request (admin_refund_payment payment_id amount) =
    send_of Method.post ("/payments/admin/payments/" <> payment_id <> "/refund/")
      (json (amount_field amount))
overseer_request (get_admin_disputes dispute_status) =
    get_of "/orders/admin/disputes/" (if_given "status" dispute_status)
overseer_request (admin_resolve_dispute id resolution) =
    send_of Method.post ("/orders/admin/disputes/" <> id <> "/resolve/")
      (json (("resolution", text resolution) ∷ []))
overseer_request (admin_reject_dispute id resolution) =
    send_of Method.post ("/orders/admin/disputes/" <> id <> "/reject/")
      (json (("resolution", text resolution) ∷ []))
