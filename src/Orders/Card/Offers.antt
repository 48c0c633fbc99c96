-- ===== src/Orders/Card/Offers.antt =====
-- When the card of provena-web/src/app/orders/[reference]/page.tsx offers a return or a dispute.
use provena.Base.{
  Any, ℕ, ◌+◌, ◌*◌, ◌<◌, String, true, false, some, List, [], ◌∷◌, ◌≡◌, ◌≢◌, ◌↔◌, ◌⊎◌, arith, any,
  All, ◌&&◌, is_blank, sub_ℕ, positive?,
}
use provena.Types.Order.{
  dispatched, delivered, opened, requested, approved, OrderReturn, OrderDispute, OrderItem,
  SubOrder,
}
use provena.Orders.Card.{
  DateParser, within_days, is_open, is_undecided, can_dispute, returned_of, returnable_for, left_of,
  has_returnable_items, can_return, is_some,
}

-- Some units of the item were not sent back yet, and it may be sent back.
abbrev pub Returnable : SubOrder → OrderItem → Type 0
Returnable sub i = (i.is_returnable ≡ true) × (returned_of sub i.id < i.quantity)

abbrev pub Decided : OrderReturn → Type 0
Decided r = (r.status ≢ requested) × (r.status ≢ approved)

left_iff : (a b : ℕ) → (is_some (positive? (sub_ℕ a b)) ≡ true) ↔ (b < a)
left_iff a b = ground arith

any-Returnable_iff :
    (sub : SubOrder) (items : List OrderItem)
    → (any (λ i. i.is_returnable && is_some (left_of sub i)) items ≡ true)
      ↔ Any (Returnable sub) items
unfolding returnable_for
any-Returnable_iff sub [] = ground arith
any-Returnable_iff sub (i ∷ items) =
    ground (arith, left_iff i.quantity (returned_of sub i.id), any-Returnable_iff sub items)

any_undecided_iff :
    (returns : List OrderReturn) → (any is_undecided returns ≡ false) ↔ All Decided returns
any_undecided_iff [] = ground arith
any_undecided_iff (r ∷ rs) = ground (arith, any_undecided_iff rs)

-- A return is offered exactly if the part was delivered, fourteen days have not passed since, some
-- item that may go back has units that were not sent back, and no return of the part is requested
-- or approved.
pub can_return_iff :
    (parse : DateParser) (now : ℕ) (sub : SubOrder)
    → (can_return parse now sub ≡ true)
      ↔ (sub.status ≡ delivered)
        × (within_days parse now sub.delivered_at 14 ≡ true)
        × Any (Returnable sub) sub.items
        × All Decided sub.returns
unfolding can_return has_returnable_items
can_return_iff parse now sub =
    ground (arith, any-Returnable_iff sub sub.items, any_undecided_iff sub.returns)

any_open_iff : (ds : List OrderDispute) → (any is_open ds ≡ false) ↔ All (λ d. d.status ≢ opened) ds
any_open_iff [] = ground arith
any_open_iff (d ∷ ds) = ground (arith, any_open_iff ds)

-- A dispute is offered exactly if no dispute of the part is open and the part is on its way, or was
-- delivered less than seven days ago.
pub can_dispute_iff :
    (parse : DateParser) (now : ℕ) (sub : SubOrder)
    → (can_dispute parse now sub ≡ true)
      ↔ ((sub.status ≡ dispatched)
          ⊎ (sub.status ≡ delivered) × (within_days parse now sub.delivered_at 7 ≡ true))
        × All (λ d. d.status ≢ opened) sub.disputes
unfolding can_dispute
can_dispute_iff parse now sub = ground (arith, any_open_iff sub.disputes)

-- For a date that parses the window is open exactly until the given number of days after it.
pub within_days_iff :
    (parse : DateParser) (now days time : ℕ) (delivered_at : String)
    → is_blank delivered_at ≡ false
    → parse delivered_at ≡ some time
    → (within_days parse now (some delivered_at) days ≡ true) ↔ (now < time + days * 86400000)
unfolding within_days
within_days_iff parse now days time delivered_at h e = ground arith
