-- ===== src/Orders/Page.antt =====
-- provena-web/src/app/orders/[reference]/page.tsx: the requests of the page and of its cards, and what
-- they show, with provena-web/src/components/order-breakdown.tsx.
pub mod Offered
use provena.Base.{
  ℕ, String, Bool, true, false, ◌&&◌, ◌||◌, not, Option, none, some, List, [], ◌∷◌, ◌++◌, ◌<>◌, any,
  is_blank, is_empty, leb, if◌then◌else◌,
}
use provena.Types.Order.{
  OrderStatus, delivered, OrderDispute, OrderReturn, OrderItem, SubOrder, CourierDelivery, Order,
  ReturnPolicy, sealed,
}
use provena.Markup.{Part, text, number, link, button, field, when}
use provena.Requests.Ordering.{BuyerCall, cancel_order, raise_dispute, request_return}
use provena.Orders.Card.{
  DateParser, cancellable, can_dispute, can_return, is_delivered, has_non_returnable_items,
}
use provena.Orders.Forms.{
  DisputeForm, ReturnForm, or_default, can_submit_dispute, can_return_selected,
  can_return_everything, selected_return_items, qty_of, row_max,
}
use provena.Orders.Labels.{
  dispute_label, courier_label, return_label, status_badge, order_status_text,
}

-- The calls of a card's forms.
unfoldable pub dispute_call : String → SubOrder → DisputeForm → BuyerCall
dispute_call reference sub f = raise_dispute reference sub.id f.reason

unfoldable pub return_selected_call : String → SubOrder → ReturnForm → BuyerCall
return_selected_call reference sub f =
    request_return reference sub.id f.return_reason (some (selected_return_items f))

unfoldable pub return_everything_call : String → SubOrder → ReturnForm → BuyerCall
return_everything_call reference sub f = request_return reference sub.id f.return_reason none

-- A click on the button that cancels the order, which is there for an order that can be cancelled and
-- disabled while a cancellation is under way. `confirmed` is the visitor's answer.
unfoldable pub cancel_click : Bool → Bool → Order → Option BuyerCall
cancel_click is_pending confirmed order =
    if cancellable order.status && not is_pending && confirmed
    then some (cancel_order order.reference)
    else none

-- The ends of a cancellation, on the message that is shown.
pub data Ended : Type 0 where
  succeeded : Ended
  failed : (detail : Option String) → Ended

unfoldable pub cancel_ended : Ended → Option String
cancel_ended succeeded = none
cancel_ended (failed detail) = some (or_default detail "Could not cancel order.")

unfoldable pub shown : Option String → (String → List Part) → List Part
shown none parts = []
shown (some s) parts = if is_blank s then [] else parts s

-- The lists of a card.
unfoldable pub item_rows : List OrderItem → List Part
item_rows [] = []
item_rows (i ∷ items) =
    text i.product_name
      ∷ text i.variant_name
      ∷ number i.quantity
      ∷ when (not i.is_returnable) (text "· non-returnable" ∷ [])
    ++ text ("£" <> i.total_price) ∷ item_rows items

unfoldable pub courier_parts : Option CourierDelivery → List Part
courier_parts none = []
courier_parts (some c) =
    text (courier_label c.status)
    ∷ when (not (is_blank c.tracking_url)) (link c.tracking_url "Track delivery" ∷ [])

-- `{DISPUTE_STATUS_LABEL[d.status]}`, which shows nothing for `undefined`.
abbrev pub label_or_nothing : Option String → String
label_or_nothing none = ""
label_or_nothing (some label) = label

unfoldable pub dispute_rows : List OrderDispute → List Part
dispute_rows [] = []
dispute_rows (d ∷ disputes) =
    text ("Dispute " <> label_or_nothing (dispute_label d.status))
      ∷ text d.reason
      ∷ when (not (is_blank d.resolution)) (text ("Resolution: " <> d.resolution) ∷ [])
    ++ dispute_rows disputes

unfoldable pub return_rows : List OrderReturn → List Part
unfolding shown
return_rows [] = []
return_rows (r ∷ returns) =
    text ("Return " <> return_label r.status)
      ∷ text r.reason
      ∷ when (not (is_blank r.supplier_notes)) (text r.supplier_notes ∷ [])
    ++ shown r.refund_amount (λ amount. text ("£" <> amount <> " refunded") ∷ [])
    ++ return_rows returns

-- The rows of the return form.
row_parts : OrderItem → ReturnForm → Option ℕ → List Part
row_parts i f none = []
row_parts i f (some max) =
    let qty = qty_of i.id f.return_qty in
    text i.product_name
    ∷ text i.variant_name
    ∷ button "−" (leb qty 0)
    ∷ number qty
    ∷ text "/"
    ∷ number max
    ∷ button "+" (leb max qty)
    ∷ []

unfoldable pub return_form_rows : SubOrder → ReturnForm → List OrderItem → List Part
unfolding row_parts
return_form_rows sub f [] = []
return_form_rows sub f (i ∷ items) = row_parts i f (row_max sub i) ++ return_form_rows sub f items

is_sealed : ReturnPolicy → Bool
is_sealed sealed = true
is_sealed _ = false

unfoldable pub return_form_parts : Bool → SubOrder → ReturnForm → List Part
unfolding return_form_rows is_sealed shown
return_form_parts is_pending sub f =
    text "Which items?"
      ∷ when (any (λ (i : OrderItem). is_sealed i.return_policy) sub.items) (
          text
            "Sealed items can only be returned if unopened; the supplier checks the seal on receipt."
          ∷ [])
    ++ return_form_rows sub f sub.items
    ++ field "Reason for return" f.return_reason ∷ shown f.return_error (λ e. text e ∷ [])
    ++ button "Return selected" (not (can_return_selected is_pending f))
      ∷ button "Return everything" (not (can_return_everything is_pending f))
      ∷ button "Cancel" false
      ∷ []

unfoldable pub dispute_form_parts : Bool → DisputeForm → List Part
unfolding shown
dispute_form_parts is_pending f =
    field "Describe the issue" f.reason ∷ shown f.dispute_error (λ e. text e ∷ [])
    ++ button "Submit dispute" (not (can_submit_dispute is_pending f)) ∷ button "Cancel" false ∷ []

abbrev pub perishable : String
perishable =
    "Some items are perishable and can only be refunded if they arrive damaged or spoiled. Raise a dispute for those."

-- The head and the body of a card, above what it offers.
unfoldable pub card_head : SubOrder → List Part
unfolding item_rows courier_parts dispute_rows return_rows
card_head sub =
    text sub.supplier_name
      ∷ when (not (is_blank sub.tracking_number)) (text ("Track: " <> sub.tracking_number) ∷ [])
    ++ text (status_badge (order_status_text sub.status)).1 ∷ item_rows sub.items
    ++ text "Subtotal" ∷ text ("£" <> sub.subtotal) ∷ courier_parts sub.courier
    ++ dispute_rows sub.disputes
    ++ return_rows sub.returns
    ++ when (is_delivered sub.status && has_non_returnable_items sub) (text perishable ∷ [])

-- What a card offers: the two buttons, from the two tests and whether the forms are open.
unfoldable pub offers : Bool → Bool → Bool → Bool → List Part
offers may_return may_dispute show_return_form show_form =
    let dispute = when (may_dispute && not show_form) (button "Raise a dispute" false ∷ []) in
    when (may_return && not show_return_form) (button "Request a return" false ∷ dispute)
    ++ when (not may_return) dispute

module _ (parse : DateParser) (now : ℕ) where
  unfoldable pub card_view : Bool → Bool → SubOrder → ReturnForm → DisputeForm → List Part
  unfolding offers
  card_view return_pending dispute_pending sub r d =
      card_head sub
      ++ offers (can_return parse now sub) (can_dispute parse now sub) r.show_return_form
          d.show_form
      ++ when r.show_return_form (return_form_parts return_pending sub r)
      ++ when d.show_form (dispute_form_parts dispute_pending d)

  -- A card with the state of its forms and of their calls.
  pub record CardState : Type 0 where
    pub sub : SubOrder
    pub return_form : ReturnForm
    pub return_pending : Bool
    pub dispute_form : DisputeForm
    pub dispute_pending : Bool

  unfoldable pub cards_view : List CardState → List Part
  unfolding card_view
  cards_view [] = []
  cards_view (c ∷ cards) =
      card_view c.return_pending c.dispute_pending c.sub c.return_form c.dispute_form
      ++ cards_view cards

-- `Number(amount) > 0` and `Number(amount) === 0` are the language's, on the texts of amounts.
pub record Amounts : Type 0 where
  pub is_positive : String → Bool
  pub is_zero : String → Bool

-- The breakdown of what an order costs.
unfoldable pub breakdown : Amounts → Order → List Part
breakdown n order =
    text "Goods"
      ∷ text ("£" <> order.goods_subtotal)
      ∷ when (n.is_positive order.discount_amount) (
          text (
            if is_blank order.discount_code
            then "Discount"
            else "Discount (" <> order.discount_code <> ")")
          ∷ text ("-£" <> order.discount_amount)
          ∷ [])
    ++ text "Shipping"
      ∷ text (if n.is_zero order.shipping_amount then "Free" else "£" <> order.shipping_amount)
      ∷ text "Includes VAT"
      ∷ text ("£" <> order.vat_amount)
      ∷ text "Total"
      ∷ text ("£" <> order.total_amount)
      ∷ []

unfoldable pub order_parts :
    Amounts → (String → String) → Bool → Option String → List Part → Order → List Part
unfolding shown
order_parts n format_date cancel_pending cancel_error cards order =
    text ("Order " <> order.reference)
      ∷ text ("Placed " <> format_date order.created_at)
      ∷ text "Total"
      ∷ text ("£" <> order.total_amount)
      ∷ text (status_badge (order_status_text order.status)).1
      ∷ when (cancellable order.status) (button "Cancel order" cancel_pending ∷ [])
    ++ shown cancel_error (λ e. text e ∷ [])
    ++ cards
    ++ text "Payment breakdown" ∷ breakdown n order
    ++ text "Shipping to"
      ∷ text order.shipping_name
      ∷ text order.shipping_line1
      ∷ when (not (is_blank order.shipping_line2)) (text (", " <> order.shipping_line2) ∷ [])
    ++ text (order.shipping_city <> ", " <> order.shipping_postcode) ∷ []

unfoldable pub order_view :
    Amounts → (String → String) → Bool → Bool → Option String → List Part → Option Order → List Part
unfolding order_parts
order_view n format_date is_pending cancel_pending cancel_error cards none =
    link "/orders" "My orders"
    ∷ text (if is_pending then "Loading order…" else "Order not found.")
    ∷ []
order_view n format_date is_pending cancel_pending cancel_error cards (some order) =
    link "/orders" "My orders"
    ∷ (if is_pending
        then text "Loading order…" ∷ []
        else order_parts n format_date cancel_pending cancel_error cards order)
