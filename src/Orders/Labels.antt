-- ===== src/Orders/Labels.antt =====
-- The words that the pages print for a status: provena-web/src/app/orders/[reference]/page.tsx (the
-- card's disputes, returns and courier) and provena-web/src/components/supplier/status-badge.tsx.
pub mod Coverage
use provena.Base.{
  String, Bool, true, false, Option, none, some, ◌==◌, string_eq, List, [], ◌∷◌, if◌then◌else◌,
}
use provena.Types.Order.{
  OrderStatus, pending, confirmed, dispatched, delivered, cancelled, DisputeStatus, opened,
  respondent_replied, escalated, resolving, resolved, closed, ReturnStatus, requested, approved,
  refunding, refunded, CourierStatus, quoted, booked, en_route, failed,
}

-- The texts that stand for the statuses in the API's answers.
unfoldable pub dispute_status_text : DisputeStatus → String
dispute_status_text opened = "OPEN"
dispute_status_text respondent_replied = "RESPONDENT_REPLIED"
dispute_status_text escalated = "ESCALATED"
dispute_status_text resolving = "RESOLVING"
dispute_status_text resolved = "RESOLVED"
dispute_status_text DisputeStatus.rejected = "REJECTED"
dispute_status_text closed = "CLOSED"

unfoldable pub courier_status_text : CourierStatus → String
courier_status_text quoted = "QUOTED"
courier_status_text booked = "BOOKED"
courier_status_text en_route = "EN_ROUTE"
courier_status_text CourierStatus.delivered = "DELIVERED"
courier_status_text failed = "FAILED"
courier_status_text CourierStatus.cancelled = "CANCELLED"

unfoldable pub order_status_text : OrderStatus → String
order_status_text pending = "PENDING"
order_status_text confirmed = "CONFIRMED"
order_status_text dispatched = "DISPATCHED"
order_status_text OrderStatus.delivered = "DELIVERED"
order_status_text OrderStatus.cancelled = "CANCELLED"

-- A `Record<string, string>`, read by a key: `none` is `undefined`.
pub find : List (String × String) → String → Option String
find [] key = none
find ((k, v) ∷ entries) key = if k == key then some v else find entries key

abbrev pub dispute_labels : List (String × String)
dispute_labels = ("OPEN", "Open") ∷ ("RESOLVED", "Resolved") ∷ ("REJECTED", "Rejected") ∷ []

abbrev pub courier_labels : List (String × String)
courier_labels =
    ("QUOTED", "Delivery quoted")
    ∷ ("BOOKED", "Courier booked")
    ∷ ("EN_ROUTE", "Courier en route")
    ∷ ("DELIVERED", "Delivered by courier")
    ∷ ("FAILED", "Delivery failed")
    ∷ ("CANCELLED", "Delivery cancelled")
    ∷ []

unfoldable pub dispute_label : DisputeStatus → Option String
unfolding find dispute_status_text
dispute_label status = find dispute_labels (dispute_status_text status)

abbrev pub or_key : Option String → String → String
or_key none key = key
or_key (some label) key = label

-- `COURIER_STATUS_LABEL[status] ?? status`
unfoldable pub courier_label : CourierStatus → String
unfolding find courier_status_text
courier_label status =
    or_key (find courier_labels (courier_status_text status)) (courier_status_text status)

-- The word after "Return".
unfoldable pub return_label : ReturnStatus → String
return_label requested = "Requested"
return_label approved = "Approved"
return_label refunded = "Refunded"
return_label _ = "Rejected"

unfoldable pub return_colour : ReturnStatus → String
return_colour requested = "text-marigold"
return_colour approved = "text-meadow"
return_colour refunded = "text-forest"
return_colour _ = "text-soil"

abbrev pub styles : List (String × String)
styles =
    ("PENDING", "bg-marigold/15 text-[#7A5A08]")
    ∷ ("CONFIRMED", "bg-meadow/15 text-[#245C38]")
    ∷ ("DISPATCHED", "bg-forest/10 text-forest")
    ∷ ("DELIVERED", "bg-meadow/20 text-[#1A4530]")
    ∷ ("CANCELLED", "bg-soil/10 text-soil")
    ∷ ("ACTIVE", "bg-meadow/15 text-[#245C38]")
    ∷ ("DRAFT", "bg-marigold/15 text-[#7A5A08]")
    ∷ ("ARCHIVED", "bg-hoarfrost text-soil")
    ∷ ("PROCESSING", "bg-marigold/10 text-[#7A5A08]")
    ∷ ("PAID", "bg-meadow/20 text-[#1A4530]")
    ∷ ("FAILED", "bg-red-50 text-red-700")
    ∷ ("REVERSED", "bg-soil/10 text-soil")
    ∷ []

abbrev pub labels : List (String × String)
labels =
    ("DISPATCHED", "Dispatched")
    ∷ ("DELIVERED", "Delivered")
    ∷ ("CONFIRMED", "Confirmed")
    ∷ ("CANCELLED", "Cancelled")
    ∷ ("PENDING", "Pending")
    ∷ ("ACTIVE", "Active")
    ∷ ("DRAFT", "Draft")
    ∷ ("ARCHIVED", "Archived")
    ∷ ("PROCESSING", "Processing")
    ∷ ("PAID", "Paid")
    ∷ ("FAILED", "Failed")
    ∷ ("REVERSED", "Reversed")
    ∷ []

-- The badge's style and label for a status.
unfoldable pub status_badge : String → String × String
unfolding find
status_badge status =
    (or_key (find styles status) "bg-hoarfrost text-soil", or_key (find labels status) status)
