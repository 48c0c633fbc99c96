-- ===== src/Fulfil.antt =====
-- provena-web/src/app/supplier/orders/page.tsx: the orders of a supplier, which confirms and dispatches
-- them. Fulfil/Tracking is about the tracking numbers.
pub mod Tracking
pub mod Returns
use provena.Base.{
  ℕ, String, Bool, true, false, not, Option, none, some, List, [], ◌∷◌, ◌++◌, ◌<>◌, ◌==◌, string_eq,
  nat_eq, is_empty, keep, length, ltb, if◌then◌else◌,
}
use provena.Types.Order.{SubOrderListItem, OrderStatus, pending, confirmed, dispatched, cancelled}
use provena.Requests.Ordering.{
  SellerCall, get_supplier_sub_orders, confirm_sub_order, dispatch_sub_order,
}
use provena.Orders.Labels.{order_status_text, status_badge}
use provena.Paging.{pagination, Bar}
use provena.Markup.{Part, text, number, button, field, when}

pub data FilterTab : Type 0 where
  all : FilterTab
  only : OrderStatus → FilterTab

abbrev pub is_status : OrderStatus → SubOrderListItem → Bool
is_status status o = order_status_text o.status == order_status_text status

unfoldable pub in_tab : FilterTab → SubOrderListItem → Bool
in_tab all o = true
in_tab (only status) o = is_status status o

unfoldable pub displayed : FilterTab → List SubOrderListItem → List SubOrderListItem
unfolding in_tab
displayed filter orders = keep (in_tab filter) orders

pub record OrdersPage : Type 0 where
  pub filter : FilterTab
  pub page : ℕ
  pub dispatching : Option String
  pub tracking_input : String

abbrev pub initial : OrdersPage
initial = record { filter = all; page = 1; dispatching = none; tracking_input = "" }

-- `dispatch_succeeded` is the success of a dispatch.
pub data Event : Type 0 where
  choose_tab : FilterTab → Event
  change_page : ℕ → Event
  press_dispatch : (order_id : String) → Event
  type_tracking : (value : String) → Event
  press_cancel dispatch_succeeded : Event

unfoldable pub on_event : Event → OrdersPage → OrdersPage
on_event (choose_tab key) p = record p { filter = key }
on_event (change_page n) p = record p { page = n; dispatching = none }
on_event (press_dispatch id) p = record p { dispatching = some id }
on_event (type_tracking value) p = record p { tracking_input = value }
on_event press_cancel p = record p { dispatching = none; tracking_input = "" }
on_event dispatch_succeeded p = record p { dispatching = none; tracking_input = "" }

abbrev pub is_dispatching : Option String → String → Bool
is_dispatching none id = false
is_dispatching (some d) id = d == id

unfoldable pub orders_call : OrdersPage → SellerCall
orders_call p = get_supplier_sub_orders p.page

-- The buttons of a row: to confirm an order that is pending, and to mark one as dispatched, while its
-- form is open.
unfoldable pub confirm_call : Bool → SubOrderListItem → Option SellerCall
confirm_call is_pending o =
    if is_status pending o
    then (if is_pending then none else some (confirm_sub_order o.id))
    else none

unfoldable pub dispatch_call : Bool → OrdersPage → SubOrderListItem → Option SellerCall
dispatch_call is_pending p o =
    if is_dispatching p.dispatching o.id
    then (if is_pending then none else some (dispatch_sub_order o.id (some p.tracking_input)))
    else none

-- `print_date` is `formatDate`; the calls that are under way.
module _ (print_date : String → String) (confirming dispatching_now : Bool) where
  unfoldable pub order_row : OrdersPage → SubOrderListItem → List Part
  order_row p o =
      text o.order_reference
        ∷ text (print_date o.created_at)
        ∷ text o.buyer_email
        ∷ text ("£" <> o.subtotal)
        ∷ text (status_badge (order_status_text o.status)).1
        ∷ when (is_status pending o) (button "Confirm" confirming ∷ [])
      ++ when (is_status confirmed o) (button "Dispatch" false ∷ [])
      ++ when (is_dispatching p.dispatching o.id) (
          field "Tracking number (optional)" p.tracking_input
          ∷ button (if dispatching_now then "Saving…" else "Mark dispatched") dispatching_now
          ∷ button "Cancel" false
          ∷ [])

  unfoldable pub order_rows : OrdersPage → List SubOrderListItem → List Part
  unfolding order_row
  order_rows p [] = []
  order_rows p (o ∷ orders) = order_row p o ++ order_rows p orders

  tab_parts : List SubOrderListItem → List (FilterTab × String) → List Part
  unfolding in_tab
  tab_parts orders [] = []
  tab_parts orders ((key, label) ∷ rest) =
      let count = length (keep (in_tab key) orders) in
      button label false ∷ when (ltb 0 count) (number count ∷ []) ++ tab_parts orders rest

  bar_parts : Option Bar → List Part
  bar_parts none = []
  bar_parts (some bar) =
      number bar.from
      ∷ number bar.to
      ∷ number bar.of
      ∷ button "Previous page" bar.previous_disabled
      ∷ button "Next page" bar.next_disabled
      ∷ []

  -- The bar of the pages stands under the rows only.
  unfoldable pub orders_view : Bool → List SubOrderListItem → ℕ → OrdersPage → List Part
  unfolding order_rows tab_parts bar_parts
  orders_view loading orders total_count p =
      let rows = displayed p.filter orders in
      text "Orders"
        ∷ number (length orders)
        ∷ text (if length orders == 1 then "total order" else "total orders")
        ∷ tab_parts orders (
            (all, "All")
            ∷ (only pending, "Pending")
            ∷ (only confirmed, "Confirmed")
            ∷ (only dispatched, "Dispatched")
            ∷ (only OrderStatus.delivered, "Delivered")
            ∷ (only cancelled, "Cancelled")
            ∷ [])
      ++ (if loading
          then text "Loading…" ∷ []
          else if is_empty rows
          then text "No orders here." ∷ []
          else order_rows p rows ++ bar_parts (pagination p.page total_count 20))
