-- ===== src/Orders/Page/Offered.antt =====
-- What a card of provena-web/src/app/orders/[reference]/page.tsx lets the buyer do.
use provena.Base.{
  ℕ, String, Bool, true, false, ◌&&◌, not, Option, none, some, List, [], ◌∷◌, ◌++◌, append-nil,
  ◌<>◌, ◌≡◌, ◌⊎◌, ◌↔◌, refl, ap, ◌∙◌, arith, is_blank, if_cases, if◌then◌else◌,
}
use provena.Types.Order.{
  pending, confirmed, OrderItem, OrderDispute, OrderReturn, SubOrder, CourierDelivery, Order,
}
use provena.Markup.{Part, text, number, link, button, field, when}
use provena.Requests.Ordering.{cancel_order}
use provena.Orders.Card.{
  DateParser, can_return, can_dispute, is_delivered, has_non_returnable_items,
}
use provena.Orders.Forms.{ReturnForm, DisputeForm}
use provena.Orders.Labels.{status_badge, order_status_text}
use provena.Orders.Page.{
  card_view, card_head, offers, item_rows, courier_parts, dispute_rows, return_rows, shown,
  perishable, cancel_click, return_form_parts, dispute_form_parts,
}

-- The labels of the buttons.
abbrev pub buttons : List Part → List String
buttons [] = []
buttons (button label disabled ∷ parts) = label ∷ buttons parts
buttons (text s ∷ parts) = buttons parts
buttons (number n ∷ parts) = buttons parts
buttons (link href label ∷ parts) = buttons parts
buttons (field label value ∷ parts) = buttons parts

buttons-append : (ps qs : List Part) → buttons (ps ++ qs) ≡ buttons ps ++ buttons qs
buttons-append [] qs = refl
buttons-append (button label disabled ∷ ps) qs = ap (◌∷◌ label) (buttons-append ps qs)
buttons-append (text s ∷ ps) qs = buttons-append ps qs
buttons-append (number n ∷ ps) qs = buttons-append ps qs
buttons-append (link href label ∷ ps) qs = buttons-append ps qs
buttons-append (field label value ∷ ps) qs = buttons-append ps qs

abbrev Still : List Part → Type 0
Still ps = buttons ps ≡ []

Still-append : (ps qs : List Part) → Still ps → Still qs → Still (ps ++ qs)
Still-append ps qs h k = buttons-append ps qs ∙ ap (λ l. l ++ buttons qs) h ∙ k

Still-when : (test : Bool) (ps : List Part) → Still ps → Still (when test ps)
Still-when true ps h = h
Still-when false ps h = refl

item_rows-Still : (items : List OrderItem) → Still (item_rows items)
unfolding item_rows
item_rows-Still [] = refl
item_rows-Still (i ∷ items) =
    Still-append (when (not i.is_returnable) (text "· non-returnable" ∷ []))
      (text ("£" <> i.total_price) ∷ item_rows items)
      (Still-when (not i.is_returnable) (text "· non-returnable" ∷ []) refl) (item_rows-Still items)

courier_parts-Still : (c : Option CourierDelivery) → Still (courier_parts c)
unfolding courier_parts
courier_parts-Still none = refl
courier_parts-Still (some c) =
    Still-when (not (is_blank c.tracking_url)) (link c.tracking_url "Track delivery" ∷ []) refl

dispute_rows-Still : (disputes : List OrderDispute) → Still (dispute_rows disputes)
unfolding dispute_rows
dispute_rows-Still [] = refl
dispute_rows-Still (d ∷ disputes) =
    let resolution = text ("Resolution: " <> d.resolution) ∷ [] in
    Still-append (when (not (is_blank d.resolution)) resolution) (dispute_rows disputes)
      (Still-when (not (is_blank d.resolution)) resolution refl) (dispute_rows-Still disputes)

shown-Still :
    (o : Option String) → Still (shown o (λ amount. text ("£" <> amount <> " refunded") ∷ []))
unfolding shown
shown-Still none = refl
shown-Still (some s) = if_cases Still (is_blank s) (λ _. refl) (λ _. refl)

return_rows-Still : (returns : List OrderReturn) → Still (return_rows returns)
unfolding return_rows
return_rows-Still [] = refl
return_rows-Still (r ∷ returns) =
    let notes = when (not (is_blank r.supplier_notes)) (text r.supplier_notes ∷ []) in
    let refund = shown r.refund_amount (λ amount. text ("£" <> amount <> " refunded") ∷ []) in
    Still-append (notes ++ refund) (return_rows returns)
      (Still-append notes refund
        (Still-when (not (is_blank r.supplier_notes)) (text r.supplier_notes ∷ []) refl)
        (shown-Still r.refund_amount))
      (return_rows-Still returns)

card_head-Still : (sub : SubOrder) → Still (card_head sub)
unfolding card_head
card_head-Still sub =
    let track =
      when (not (is_blank sub.tracking_number)) (text ("Track: " <> sub.tracking_number) ∷ []) in
    let rows = text (status_badge (order_status_text sub.status)).1 ∷ item_rows sub.items in
    let courier = text "Subtotal" ∷ text ("£" <> sub.subtotal) ∷ courier_parts sub.courier in
    let note = text perishable ∷ [] in
    let test = is_delivered sub.status && has_non_returnable_items sub in
    let above = track ++ rows ++ courier ++ dispute_rows sub.disputes ++ return_rows sub.returns in
    Still-append above (when test note)
      (Still-append (track ++ rows ++ courier ++ dispute_rows sub.disputes)
        (return_rows sub.returns)
        (Still-append (track ++ rows ++ courier) (dispute_rows sub.disputes)
          (Still-append (track ++ rows) courier
            (Still-append track rows
              (Still-when (not (is_blank sub.tracking_number))
                (text ("Track: " <> sub.tracking_number) ∷ []) refl)
              (item_rows-Still sub.items))
            (courier_parts-Still sub.courier))
          (dispute_rows-Still sub.disputes))
        (return_rows-Still sub.returns))
      (Still-when test note refl)

offers-buttons :
    (may_return may_dispute : Bool)
    → buttons (offers may_return may_dispute false false)
      ≡ (if may_return then "Request a return" ∷ [] else [])
        ++ (if may_dispute then "Raise a dispute" ∷ [] else [])
unfolding offers
offers-buttons true true = refl
offers-buttons true false = refl
offers-buttons false true = refl
offers-buttons false false = refl

-- A card whose forms are closed has a button for a return exactly where a return may be asked for, and
-- one for a dispute exactly where one may be raised, and no other button.
pub card_view-buttons :
    (parse : DateParser) (now : ℕ) (return_pending dispute_pending : Bool) (sub : SubOrder)
    (r : ReturnForm) (d : DisputeForm)
    → r.show_return_form ≡ false
    → d.show_form ≡ false
    → buttons (card_view parse now return_pending dispute_pending sub r d)
      ≡ (if can_return parse now sub then "Request a return" ∷ [] else [])
        ++ (if can_dispute parse now sub then "Raise a dispute" ∷ [] else [])
unfolding card_view offers
card_view-buttons parse now return_pending dispute_pending sub r d closed_r closed_d =
    let may_return = can_return parse now sub in
    let may_dispute = can_dispute parse now sub in
    let return_form = return_form_parts return_pending sub r in
    let dispute_form = dispute_form_parts dispute_pending d in
    let offered = offers may_return may_dispute r.show_return_form d.show_form in
    let body = card_head sub ++ offered ++ when r.show_return_form return_form in
    buttons-append body (when d.show_form dispute_form)
    ∙ ap (λ l. l ++ buttons (when d.show_form dispute_form))
        (buttons-append (card_head sub ++ offered) (when r.show_return_form return_form))
    ∙ ap
        (λ l.
          l
          ++ buttons (when r.show_return_form return_form)
          ++ buttons (when d.show_form dispute_form))
        (buttons-append (card_head sub) offered
          ∙ ap (λ l. l ++ buttons offered) (card_head-Still sub))
    ∙ closing may_return may_dispute r.show_return_form d.show_form return_form dispute_form
        closed_r closed_d
  where
    closing :
        (mr md sr sd : Bool) (ps qs : List Part)
        → sr ≡ false
        → sd ≡ false
        → buttons (offers mr md sr sd) ++ buttons (when sr ps) ++ buttons (when sd qs)
          ≡ (if mr then "Request a return" ∷ [] else [])
            ++ (if md then "Raise a dispute" ∷ [] else [])
    closing mr md sr sd ps qs h k = rw h (
        rw k (
          append-nil (buttons (offers mr md false false) ++ [])
          ∙ append-nil (buttons (offers mr md false false))
          ∙ offers-buttons mr md))

-- A click sends the cancellation of the order exactly if the order is pending or confirmed, no
-- cancellation is under way, and the visitor has confirmed.
pub cancel_click_iff :
    (is_pending agreed : Bool) (order : Order)
    → (cancel_click is_pending agreed order ≡ some (cancel_order order.reference))
      ↔ ((order.status ≡ pending) ⊎ (order.status ≡ confirmed))
        × (is_pending ≡ false)
        × (agreed ≡ true)
unfolding cancel_click
cancel_click_iff is_pending agreed order = ground arith
