-- ===== src/Requests/Shop.antt =====
-- provena-web/src/lib/api/cart.ts, catalogue.ts and bulk-upload.ts.
use provena.Base.{
  ℕ, String, Option, none, some, [], ◌∷◌, ◌<>◌, pos, is_blank, any, if◌then◌else◌, ◌==◌, string_eq,
}
use provena.Client.{bearer}
use provena.Requests.{
  Method, text, number, Fields, no_body, json, form_file, HttpRequest, get_of, send_of, page_param,
}

pub data CartCall : Type 0 where
  get_cart : CartCall
  add_to_cart : (variant_id : String) (quantity : ℕ) → CartCall
  update_cart_item : (item_id : String) (quantity : ℕ) → CartCall
  remove_cart_item : (item_id : String) → CartCall
  clear_cart : CartCall
  merge_guest_cart : (access_token : Option String) → CartCall
  get_wishlist : (page : ℕ) → CartCall
  add_to_wishlist : (variant_id : String) → CartCall
  remove_from_wishlist : (item_id : String) → CartCall

-- `accessToken ? { Authorization: `Bearer ${accessToken}` } : {}`
abbrev bearer_header : Option String → Option String
bearer_header none = none
bearer_header (some access_token) =
    if is_blank access_token then none else some (bearer access_token)

unfoldable pub cart_request : CartCall → HttpRequest
cart_request get_cart = get_of "/marketplace/cart/" []
cart_request (add_to_cart variant_id quantity) =
    send_of Method.post "/marketplace/cart/items/"
      (json (("variant_id", text variant_id) ∷ ("quantity", number (pos quantity)) ∷ []))
cart_request (update_cart_item item_id quantity) =
    send_of Method.patch ("/marketplace/cart/items/" <> item_id <> "/")
      (json (("quantity", number (pos quantity)) ∷ []))
cart_request (remove_cart_item item_id) =
    send_of Method.delete ("/marketplace/cart/items/" <> item_id <> "/") no_body
cart_request clear_cart = send_of Method.delete "/marketplace/cart/" no_body
cart_request (merge_guest_cart access_token) =
    record (send_of Method.post "/marketplace/cart/merge/" (json [])) {
      authorization = bearer_header access_token;
    }
cart_request (get_wishlist page) = get_of "/marketplace/wishlist/" (page_param page)
cart_request (add_to_wishlist variant_id) =
    send_of Method.post "/marketplace/wishlist/" (json (("variant_id", text variant_id) ∷ []))
cart_request (remove_from_wishlist item_id) =
    send_of Method.delete ("/marketplace/wishlist/" <> item_id <> "/") no_body

pub data CatalogueCall : Type 0 where
  get_categories : CatalogueCall
  get_category : (slug : String) → CatalogueCall
  get_products : (params : Fields) → CatalogueCall
  get_product : (slug : String) → CatalogueCall
  get_related_products : (slug : String) → CatalogueCall
  get_recommended_products : CatalogueCall
  get_my_products : CatalogueCall
  get_product_reviews : (variant_id : String) (page : ℕ) → CatalogueCall
  submit_review : (variant_id : String) (payload : Fields) → CatalogueCall
  get_active_banners : CatalogueCall

-- `{ page_size: 100, ...params }`: a field of `params` has precedence.
abbrev with_page_size : Fields → Fields
with_page_size params =
    if any (λ e. e.0 == "page_size") params
    then params
    else ("page_size", number (pos 100)) ∷ params

unfoldable pub catalogue_request : CatalogueCall → HttpRequest
catalogue_request get_categories = get_of "/catalogue/categories/" []
catalogue_request (get_category slug) = get_of ("/catalogue/categories/" <> slug <> "/") []
catalogue_request (get_products params) = get_of "/catalogue/products/" (with_page_size params)
catalogue_request (get_product slug) = get_of ("/catalogue/products/" <> slug <> "/") []
catalogue_request (get_related_products slug) =
    get_of ("/catalogue/products/" <> slug <> "/related/") []
catalogue_request get_recommended_products = get_of "/catalogue/products/recommendations/" []
catalogue_request get_my_products = get_of "/catalogue/products/me/" []
catalogue_request (get_product_reviews variant_id page) =
    get_of ("/marketplace/products/" <> variant_id <> "/reviews/") (page_param page)
catalogue_request (submit_review variant_id payload) =
    send_of Method.post ("/marketplace/products/" <> variant_id <> "/reviews/") (json payload)
catalogue_request get_active_banners = get_of "/catalogue/banners/" []

pub data UploadCall : Type 0 where
  preview_upload confirm_upload : (file : String) → UploadCall

unfoldable pub upload_request : UploadCall → HttpRequest
upload_request (preview_upload file) =
    send_of Method.post "/catalogue/products/upload/preview/" (form_file file)
upload_request (confirm_upload file) =
    send_of Method.post "/catalogue/products/upload/confirm/" (form_file file)
