-- ===== src/Orders/Labels/Coverage.antt =====
-- Which statuses the labels of provena-web/src/app/orders/[reference]/page.tsx and of
-- provena-web/src/components/supplier/status-badge.tsx tell apart.
use provena.Base.{
  String, Option, none, some, ◌≡◌, ◌≢◌, ◌↔◌, ◌⊎◌, refl, ap, arith, eq_iff, ◌==◌, string_eq,
  if◌then◌else◌,
}
use provena.Types.Order.{
  OrderStatus, pending, confirmed, dispatched, DisputeStatus, opened, respondent_replied, escalated,
  resolving, resolved, closed, ReturnStatus, requested, approved, refunding, refunded,
}
use provena.Orders.Labels.{order_status_text, dispute_label, return_label, status_badge}

-- The page prints "Return Rejected" for a return whose refund is under way, exactly as for one that
-- was rejected.
pub return_label_iff :
    (status : ReturnStatus)
    → (return_label status ≡ "Rejected") ↔ (status ≡ ReturnStatus.rejected) ⊎ (status ≡ refunding)
unfolding return_label
return_label_iff requested = ground (arith, eq_iff "Requested" "Rejected")
return_label_iff approved = ground (arith, eq_iff "Approved" "Rejected")
return_label_iff refunding = ground arith
return_label_iff ReturnStatus.rejected = ground arith
return_label_iff refunded = ground (arith, eq_iff "Refunded" "Rejected")

-- The page has no word for a dispute exactly if it is neither open nor resolved nor rejected.
pub dispute_label-none_iff :
    (status : DisputeStatus)
    → (dispute_label status ≡ none)
      ↔ (status ≢ opened) × (status ≢ resolved) × (status ≢ DisputeStatus.rejected)
unfolding dispute_label
dispute_label-none_iff opened = ground arith
dispute_label-none_iff respondent_replied = ground arith
dispute_label-none_iff escalated = ground arith
dispute_label-none_iff resolving = ground arith
dispute_label-none_iff resolved = ground arith
dispute_label-none_iff DisputeStatus.rejected = ground arith
dispute_label-none_iff closed = ground arith

read_label : String → Option OrderStatus
read_label label =
    if label == "Pending"
    then some pending
    else if label == "Confirmed"
    then some confirmed
    else if label == "Dispatched"
    then some dispatched
    else if label == "Delivered"
    then some OrderStatus.delivered
    else if label == "Cancelled"
    then some OrderStatus.cancelled
    else none

read_label-status_badge :
    (s : OrderStatus) → read_label (status_badge (order_status_text s)).1 ≡ some s
unfolding read_label status_badge order_status_text
read_label-status_badge pending = refl
read_label-status_badge confirmed = refl
read_label-status_badge dispatched = refl
read_label-status_badge OrderStatus.delivered = refl
read_label-status_badge OrderStatus.cancelled = refl

-- The badge of an order tells its statuses apart by their labels.
pub status_badge-order_status :
    (s t : OrderStatus)
    → (status_badge (order_status_text s)).1 ≡ (status_badge (order_status_text t)).1
    → s ≡ t
status_badge-order_status s t e =
    cc (read_label-status_badge s, read_label-status_badge t, ap read_label e)
