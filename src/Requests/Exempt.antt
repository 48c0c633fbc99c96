-- ===== src/Requests/Exempt.antt =====
-- Which of the requests of provena-web/src/lib/api the client leaves alone when their token has
-- expired, and what the client does with the others.
use provena.Base.{
  ℕ, String, Bool, true, false, Option, none, some, ◌||◌, ◌≡◌, ◌↔◌, refl, ◌⊎◌, arith,
}
use provena.Client.{Client, is_auth_endpoint, on_request, on_error, reject}
use provena.Requests.{HttpRequest, config_of}
use provena.Requests.Account.{
  AuthCall, auth_request, AddressCall, address_request, NotificationCall, notification_request,
}
use provena.Requests.Shop.{
  CartCall, cart_request, CatalogueCall, catalogue_request, UploadCall, upload_request,
}
use provena.Requests.Ordering.{
  BuyerCall, buyer_request, SellerCall, seller_request, OverseerCall, overseer_request,
}
use provena.Requests.Management.{SupplierCall, supplier_request, StockCall, stock_request}
use provena.Requests.Admin.{SalesCall, sales_request, UserCall, user_request}

-- A call of any function of provena-web/src/lib/api.
pub data Call : Type 0 where
  auth : AuthCall → Call
  address : AddressCall → Call
  notification : NotificationCall → Call
  cart : CartCall → Call
  catalogue : CatalogueCall → Call
  upload : UploadCall → Call
  buyer : BuyerCall → Call
  seller : SellerCall → Call
  overseer : OverseerCall → Call
  supplier : SupplierCall → Call
  stock : StockCall → Call
  sales : SalesCall → Call
  user : UserCall → Call

pub request : Call → HttpRequest
request (auth c) = auth_request c
request (address c) = address_request c
request (notification c) = notification_request c
request (cart c) = cart_request c
request (catalogue c) = catalogue_request c
request (upload c) = upload_request c
request (buyer c) = buyer_request c
request (seller c) = seller_request c
request (overseer c) = overseer_request c
request (supplier c) = supplier_request c
request (stock c) = stock_request c
request (sales c) = sales_request c
request (user c) = user_request c

abbrev pub exempt : HttpRequest → Bool
exempt r = is_auth_endpoint (config_of 0 r)

abbrev pub signs_in : Call → Bool
signs_in (auth (AuthCall.login email password)) = true
signs_in (auth (AuthCall.login_totp totp_session_token totp_code)) = true
signs_in _ = false

-- The calls by which a signed-in user turns two-factor authentication on and off.
abbrev pub manages_totp : Call → Bool
manages_totp (auth AuthCall.get_totp_setup_uri) = true
manages_totp (auth (AuthCall.enable_totp code)) = true
manages_totp (auth (AuthCall.disable_totp code)) = true
manages_totp _ = false

exempt-auth :
    (c : AuthCall) → exempt (auth_request c) ≡ (signs_in (auth c) || manages_totp (auth c))
unfolding auth_request is_auth_endpoint
exempt-auth c =
    elim c as (λ k. exempt (auth_request k) ≡ (signs_in (auth k) || manages_totp (auth k))) [
      | AuthCall.logout ↦ refl
      | _ ↦ refl
    ]

-- Of all calls the client exempts from the refresh exactly the two calls that sign in and the three that manage
-- two-factor authentication.
pub exempt-request : (c : Call) → exempt (request c) ≡ (signs_in c || manages_totp c)
unfolding request is_auth_endpoint address_request notification_request cart_request
    catalogue_request upload_request buyer_request seller_request overseer_request supplier_request
    stock_request sales_request user_request
exempt-request (auth c) = exempt-auth c
exempt-request (address c) = elim c as (λ k. exempt (address_request k) ≡ false) [
  | AddressCall.get_addresses ↦ refl
  | _ ↦ refl
]
exempt-request (notification c) = elim c as (λ k. exempt (notification_request k) ≡ false) [
  | NotificationCall.mark_all_notifications_read ↦ refl
  | _ ↦ refl
]
exempt-request (cart c) = elim c as (λ k. exempt (cart_request k) ≡ false) [
  | CartCall.get_cart ↦ refl
  | _ ↦ refl
]
exempt-request (catalogue c) = elim c as (λ k. exempt (catalogue_request k) ≡ false) [
  | CatalogueCall.get_categories ↦ refl
  | _ ↦ refl
]
exempt-request (upload c) = elim c as (λ k. exempt (upload_request k) ≡ false) [
  | UploadCall.preview_upload file ↦ refl
  | _ ↦ refl
]
exempt-request (buyer c) = elim c as (λ k. exempt (buyer_request k) ≡ false) [
  | BuyerCall.get_ws_ticket ↦ refl
  | _ ↦ refl
]
exempt-request (seller c) = elim c as (λ k. exempt (seller_request k) ≡ false) [
  | SellerCall.confirm_sub_order id ↦ refl
  | _ ↦ refl
]
exempt-request (overseer c) = elim c as (λ k. exempt (overseer_request k) ≡ false) [
  | OverseerCall.get_admin_orders page ↦ refl
  | _ ↦ refl
]
exempt-request (supplier c) = elim c as (λ k. exempt (supplier_request k) ≡ false) [
  | SupplierCall.get_public_suppliers ↦ refl
  | _ ↦ refl
]
exempt-request (stock c) = elim c as (λ k. exempt (stock_request k) ≡ false) [
  | StockCall.get_stock_level id ↦ refl
  | _ ↦ refl
]
exempt-request (sales c) = elim c as (λ k. exempt (sales_request k) ≡ false) [
  | SalesCall.get_supplier_performance ↦ refl
  | _ ↦ refl
]
exempt-request (user c) = elim c as (λ k. exempt (user_request k) ≡ false) [
  | UserCall.get_banners ↦ refl
  | _ ↦ refl
]

-- Whatever token it carries and whatever the client's state, a first attempt of a call that the API
-- answers with 401 is rejected at once, instead of waiting for a new token or asking for one, exactly
-- if the call signs in or manages two-factor authentication.
pub on_error-request_iff :
    (c : Call) (id : ℕ) (token : Option String) (cl : Client)
    → ((on_error (some 401) (on_request token (config_of id (request c))) cl).1 ≡ reject)
      ↔ (signs_in c ≡ true) ⊎ (manages_totp c ≡ true)
unfolding on_error on_request is_auth_endpoint
on_error-request_iff c id none cl = ground (arith, exempt-request c)
on_error-request_iff c id (some t) cl = ground (arith, exempt-request c)
