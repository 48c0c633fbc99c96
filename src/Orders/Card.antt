-- ===== src/Orders/Card.antt =====
-- provena-web/src/app/orders/[reference]/page.tsx, the card of one supplier's part of an order: when
-- a dispute or a return is offered, and how many units can go back.
pub mod Offers
use provena.Base.{
  ℕ, ◌+◌, ◌*◌, String, Bool, true, false, ◌&&◌, ◌||◌, not, Option, none, some, List, [], ◌∷◌, ◌++◌,
  ◌==◌, string_eq, ltb, leb, any, keep, sum_by, is_blank, ℤ, sub_ℕ, positive?, if◌then◌else◌,
}
use provena.Types.Order.{
  OrderStatus, pending, confirmed, dispatched, delivered, cancelled, DisputeStatus, opened,
  ReturnStatus, requested, approved, rejected, ReturnItem, OrderReturn, OrderDispute, OrderItem,
  SubOrder,
}

-- `new Date(iso).getTime()` in milliseconds; `none` is NaN.
abbrev pub DateParser : Type 0
DateParser = String → Option ℕ

-- `now - time < days * …`, where NaN makes the test fail.
earlier : Option ℕ → ℕ → ℕ → Bool
earlier none now days = false
earlier (some time) now days = ltb now (time + days * 24 * 60 * 60 * 1000)

unfoldable pub within_days : DateParser → ℕ → Option String → ℕ → Bool
unfolding earlier
within_days parse now none days = true
within_days parse now (some delivered_at) days =
    if is_blank delivered_at then true else earlier (parse delivered_at) now days

abbrev pub cancellable : OrderStatus → Bool
cancellable pending = true
cancellable confirmed = true
cancellable _ = false

abbrev pub disputable : OrderStatus → Bool
disputable dispatched = true
disputable delivered = true
disputable _ = false

abbrev pub is_delivered : OrderStatus → Bool
is_delivered delivered = true
is_delivered _ = false

abbrev pub is_open : OrderDispute → Bool
is_open d = elim d.status [ opened ↦ true | _ ↦ false ]

abbrev pub is_rejected : OrderReturn → Bool
is_rejected r = elim r.status [ rejected ↦ true | _ ↦ false ]

-- `r.status === 'REQUESTED' || r.status === 'APPROVED'`
abbrev pub is_undecided : OrderReturn → Bool
is_undecided r = elim r.status [ requested ↦ true | approved ↦ true | _ ↦ false ]

unfoldable pub can_dispute : DateParser → ℕ → SubOrder → Bool
can_dispute parse now sub =
    disputable sub.status
    && (not (any is_open sub.disputes)
        && (not (is_delivered sub.status) || within_days parse now sub.delivered_at 7))

abbrev pub flat_items : List OrderReturn → List ReturnItem
flat_items [] = []
flat_items (r ∷ rs) = r.items ++ flat_items rs

-- The units of an item that stand in a return which was not rejected.
unfoldable pub returned_of : SubOrder → String → ℕ
returned_of sub item_id =
    sum_by (λ ri. ri.quantity)
      (keep (λ ri. ri.order_item_id == item_id)
        (flat_items (keep (λ r. not (is_rejected r)) sub.returns)))

unfoldable pub returnable_for : SubOrder → String → ℕ → ℤ
unfolding returned_of
returnable_for sub item_id ordered = sub_ℕ ordered (returned_of sub item_id)

abbrev pub is_some {ℓ} : {A : Type ℓ} → Option A → Bool
is_some none = false
is_some (some a) = true

-- `returnableFor(i.id, i.quantity)` where it is above zero.
abbrev pub left_of : SubOrder → OrderItem → Option ℕ
left_of sub i = positive? (returnable_for sub i.id i.quantity)

unfoldable pub has_returnable_items : SubOrder → Bool
has_returnable_items sub = any (λ i. i.is_returnable && is_some (left_of sub i)) sub.items

unfoldable pub has_non_returnable_items : SubOrder → Bool
has_non_returnable_items sub = any (λ i. not i.is_returnable) sub.items

unfoldable pub can_return : DateParser → ℕ → SubOrder → Bool
can_return parse now sub =
    is_delivered sub.status
    && (within_days parse now sub.delivered_at 14
        && (has_returnable_items sub && not (any is_undecided sub.returns)))
