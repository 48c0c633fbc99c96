-- ===== src/Requests/Routes/Reached.antt =====
-- Which of the calls of provena-web/src/lib/api/orders.ts reach a view of
-- provena-api/apps/orders/urls.py.
use Prim.Native.Char.{code}
use Prim.Native.String.{[], ◌∷◌}
use provena.Base.{
  ℕ, String, true, false, Option, none, some, List, [], ◌∷◌, ◌<>◌, ◌≡◌, ◌≢◌, refl, ap, ◌∙◌, arith,
  eq_iff, nat_eq, string_eq, is_blank,
}
use provena.Requests.{Fields}
use provena.Requests.Ordering.{
  buyer_request, place_order, get_orders, get_ws_ticket, get_supplier_sub_orders,
  get_supplier_returns, get_admin_orders, get_admin_returns, get_order, cancel_order,
  request_return, raise_dispute, seller_request, supplier_approve_return, supplier_reject_return,
  confirm_sub_order, dispatch_sub_order, overseer_request, get_admin_order,
  admin_process_return_refund, get_admin_disputes, admin_resolve_dispute, admin_reject_dispute,
}
use provena.Requests.Routes.{Resolver, segments, first_match, matches, order_routes}

-- An id that is one segment of a path.
abbrev pub NoSlash : String → Type 0
NoSlash [] = Unit
NoSlash (c ∷ s) = (code c ≢ 47) × NoSlash s

segments-id : (id t : String) → NoSlash id → segments (id <> ("/" ∷ t)) ≡ id ∷ segments t
unfolding segments
segments-id [] t h = refl
segments-id (c ∷ id) t (ne, h) = ground (arith, segments-id id t h)

dispute_segments :
    (reference id : String)
    → NoSlash reference
    → NoSlash id
    → segments ("/orders/" <> reference <> "/sub-orders/" <> id <> "/dispute/")
      ≡ "" ∷ "orders" ∷ reference ∷ "sub-orders" ∷ id ∷ "dispute" ∷ "" ∷ []
unfolding segments
dispute_segments reference id h k =
    rw (segments-id reference ("sub-orders/" <> id <> "/dispute/") h, segments-id id "dispute/" k)

return_segments :
    (reference id : String)
    → NoSlash reference
    → NoSlash id
    → segments ("/orders/" <> reference <> "/sub-orders/" <> id <> "/return/")
      ≡ "" ∷ "orders" ∷ reference ∷ "sub-orders" ∷ id ∷ "return" ∷ "" ∷ []
unfolding segments
return_segments reference id h k =
    rw (segments-id reference ("sub-orders/" <> id <> "/return/") h, segments-id id "return/" k)

-- An order's reference is a segment that no route spells out.
abbrev pub Plain : String → Type 0
Plain reference =
    NoSlash reference
    × (is_blank reference ≡ false)
    × (reference ≢ "ws-ticket")
    × (reference ≢ "supplier")
    × (reference ≢ "admin")
    × (reference ≢ "returns")

module _ (django : Resolver) where
  open django use {is_uuid, resolve, in_order}

  -- Where a path leads, from its segments.
  by_segments :
      (url : String) {ss : List String} (view : Option String)
      → segments url ≡ ss
      → first_match is_uuid order_routes ss ≡ view
      → resolve order_routes url ≡ view
  by_segments url view e f = in_order order_routes url ∙ ap (first_match is_uuid order_routes) e ∙ f

  -- For a plain reference and a part with a UUID the buyer's calls reach the views that they are for.
  pub resolve-buyer_request :
      (reference id reason : String) (items : Option (List (String × ℕ)))
      → Plain reference
      → NoSlash id
      → is_uuid id ≡ true
      → (resolve order_routes (buyer_request (get_order reference)).url ≡ some "order-detail")
        × (resolve order_routes (buyer_request (cancel_order reference)).url ≡ some "order-cancel")
        × (resolve order_routes (buyer_request (request_return reference id reason items)).url
            ≡ some "request-return")
  unfolding segments first_match matches buyer_request
  resolve-buyer_request reference id reason items h k u =
      let (plain, full, ticket, supplier, admin, returns) = h in
      (
        by_segments _ (some "order-detail")
            (ap (λ ss. "" ∷ "orders" ∷ ss) (segments-id reference "" plain))
            (ground (
              arith,
              eq_iff "ws-ticket" reference,
              eq_iff "supplier" reference,
              eq_iff "admin" reference,
            )),
        by_segments _ (some "order-cancel")
            (ap (λ ss. "" ∷ "orders" ∷ ss) (segments-id reference "cancel/" plain))
            (ground (
              arith,
              eq_iff "ws-ticket" reference,
              eq_iff "supplier" reference,
              eq_iff "admin" reference,
            )),
        by_segments _ (some "request-return") (return_segments reference id plain k) (ground arith),
      )

  -- The calls of suppliers and of administrators that name an order or a return reach the views that
  -- they are for, where the ids are UUIDs and the reference is plain.
  pub resolve-seller_request :
      (reference id : String) (notes amount tracking_number : Option String)
      → Plain reference
      → NoSlash id
      → is_uuid id ≡ true
      → (resolve order_routes (seller_request (supplier_approve_return id notes)).url
          ≡ some "supplier-approve-return")
        × (resolve order_routes (seller_request (supplier_reject_return id notes)).url
            ≡ some "supplier-reject-return")
        × (resolve order_routes (seller_request (confirm_sub_order id)).url
            ≡ some "supplier-confirm")
        × (resolve order_routes (seller_request (dispatch_sub_order id tracking_number)).url
            ≡ some "supplier-dispatch")
        × (resolve order_routes (overseer_request (admin_process_return_refund id amount)).url
            ≡ some "admin-process-return-refund")
        × (resolve order_routes (overseer_request (get_admin_order reference)).url
            ≡ some "admin-order-detail")
  unfolding segments first_match matches seller_request overseer_request
  resolve-seller_request reference id notes amount tracking_number h k u =
      let (plain, full, ticket, supplier, admin, returns) = h in
      (
        by_segments _ (some "supplier-approve-return") (at_supplier_returns "approve/")
            (ground arith),
        by_segments _ (some "supplier-reject-return") (at_supplier_returns "reject/")
            (ground arith),
        by_segments _ (some "supplier-confirm") (at_supplier "confirm/") (ground arith),
        by_segments _ (some "supplier-dispatch") (at_supplier "dispatch/") (ground arith),
        by_segments _ (some "admin-process-return-refund")
            (ap (λ ss. "" ∷ "orders" ∷ "admin" ∷ "returns" ∷ ss) (segments-id id "refund/" k))
            (ground arith),
        by_segments _ (some "admin-order-detail")
            (ap (λ ss. "" ∷ "orders" ∷ "admin" ∷ ss) (segments-id reference "" plain))
            (ground (arith, eq_iff "returns" reference)),
      )
    where
      at_supplier :
          (t : String)
          → segments ("/orders/supplier/" <> id <> ("/" ∷ t))
            ≡ "" ∷ "orders" ∷ "supplier" ∷ id ∷ segments t
      at_supplier t = ap (λ ss. "" ∷ "orders" ∷ "supplier" ∷ ss) (segments-id id t k)

      at_supplier_returns :
          (t : String)
          → segments ("/orders/supplier/returns/" <> id <> ("/" ∷ t))
            ≡ "" ∷ "orders" ∷ "supplier" ∷ "returns" ∷ id ∷ segments t
      at_supplier_returns t =
          ap (λ ss. "" ∷ "orders" ∷ "supplier" ∷ "returns" ∷ ss) (segments-id id t k)

  -- The calls of lists, of placing an order and of the socket's ticket, whose paths hold no parameter.
  resolve-list_calls :
      (fields : Fields) (page : ℕ) (status : Option String)
      → (resolve order_routes (buyer_request (place_order fields)).url ≡ some "order-list-create")
        × (resolve order_routes (buyer_request (get_orders page)).url ≡ some "order-list-create")
        × (resolve order_routes (buyer_request get_ws_ticket).url ≡ some "ws-ticket")
        × (resolve order_routes (seller_request (get_supplier_sub_orders page)).url
            ≡ some "supplier-suborder-list")
        × (resolve order_routes (seller_request (get_supplier_returns status page)).url
            ≡ some "supplier-return-list")
        × (resolve order_routes (overseer_request (get_admin_orders page)).url
            ≡ some "admin-order-list")
        × (resolve order_routes (overseer_request (get_admin_returns status page)).url
            ≡ some "admin-return-list")
  unfolding segments first_match matches buyer_request seller_request overseer_request
  resolve-list_calls fields page status = (
    by_segments _ (some "order-list-create") refl (ground arith),
    by_segments _ (some "order-list-create") refl (ground arith),
    by_segments _ (some "ws-ticket") refl (ground arith),
    by_segments _ (some "supplier-suborder-list") refl (ground arith),
    by_segments _ (some "supplier-return-list") refl (ground arith),
    by_segments _ (some "admin-order-list") refl (ground arith),
    by_segments _ (some "admin-return-list") refl (ground arith),
  )

  -- Every call of orders.ts under `/orders/` but those about disputes reaches the view that it is for,
  -- for a plain reference and ids that are UUIDs: a buyer's list of orders, a new order and the
  -- ticket of the socket, and an order's details, cancellation and return; a supplier's lists of
  -- orders and of returns, approving and rejecting a return, confirming and dispatching an order; and
  -- an administrator's lists of orders and of returns, an order's details and the refund of a
  -- return.
  pub resolve-order_calls :
      (reference id reason : String) (items : Option (List (String × ℕ)))
      (notes amount tracking_number status : Option String) (fields : Fields) (page : ℕ)
      → Plain reference
      → NoSlash id
      → is_uuid id ≡ true
      → ((resolve order_routes (buyer_request (get_order reference)).url ≡ some "order-detail")
          × (resolve order_routes (buyer_request (cancel_order reference)).url
              ≡ some "order-cancel")
          × (resolve order_routes (buyer_request (request_return reference id reason items)).url
              ≡ some "request-return"))
        × (resolve order_routes (seller_request (supplier_approve_return id notes)).url
            ≡ some "supplier-approve-return")
        × (resolve order_routes (seller_request (supplier_reject_return id notes)).url
            ≡ some "supplier-reject-return")
        × (resolve order_routes (seller_request (confirm_sub_order id)).url
            ≡ some "supplier-confirm")
        × (resolve order_routes (seller_request (dispatch_sub_order id tracking_number)).url
            ≡ some "supplier-dispatch")
        × (resolve order_routes (overseer_request (admin_process_return_refund id amount)).url
            ≡ some "admin-process-return-refund")
        × (resolve order_routes (overseer_request (get_admin_order reference)).url
            ≡ some "admin-order-detail")
        × (resolve order_routes (buyer_request (place_order fields)).url ≡ some "order-list-create")
        × (resolve order_routes (buyer_request (get_orders page)).url ≡ some "order-list-create")
        × (resolve order_routes (buyer_request get_ws_ticket).url ≡ some "ws-ticket")
        × (resolve order_routes (seller_request (get_supplier_sub_orders page)).url
            ≡ some "supplier-suborder-list")
        × (resolve order_routes (seller_request (get_supplier_returns status page)).url
            ≡ some "supplier-return-list")
        × (resolve order_routes (overseer_request (get_admin_orders page)).url
            ≡ some "admin-order-list")
        × (resolve order_routes (overseer_request (get_admin_returns status page)).url
            ≡ some "admin-return-list")
  resolve-order_calls reference id reason items notes amount tracking_number status fields page h k
        u =
      let (new_order, orders, ticket, sub_orders, returns, all_orders, all_returns) =
        resolve-list_calls fields page status in
      let (approve, reject, confirm, dispatch, refund, detail) =
        resolve-seller_request reference id notes amount tracking_number h k u in
      (
        resolve-buyer_request reference id reason items h k u,
        approve,
        reject,
        confirm,
        dispatch,
        refund,
        detail,
        new_order,
        orders,
        ticket,
        sub_orders,
        returns,
        all_orders,
        all_returns,
      )

  -- No call about a dispute reaches a view for disputes, whatever the ids: raising one and deciding
  -- one find no route, and the list of all disputes finds the one for an order with the reference
  -- "disputes".
  pub resolve-dispute :
      (reference id text : String) (status : Option String)
      → NoSlash reference
      → NoSlash id
      → (resolve order_routes (buyer_request (raise_dispute reference id text)).url ≡ none)
        × (resolve order_routes (overseer_request (admin_resolve_dispute id text)).url ≡ none)
        × (resolve order_routes (overseer_request (admin_reject_dispute id text)).url ≡ none)
        × (resolve order_routes (overseer_request (get_admin_disputes status)).url
            ≡ some "admin-order-detail")
  unfolding segments first_match matches buyer_request overseer_request
  resolve-dispute reference id text status h k = (
    by_segments _ none (dispute_segments reference id h k) refl,
    by_segments _ none
        (ap (λ ss. "" ∷ "orders" ∷ "admin" ∷ "disputes" ∷ ss) (segments-id id "resolve/" k))
        (ground arith),
    by_segments _ none
        (ap (λ ss. "" ∷ "orders" ∷ "admin" ∷ "disputes" ∷ ss) (segments-id id "reject/" k))
        (ground arith),
    by_segments _ (some "admin-order-detail") refl (ground arith),
  )
