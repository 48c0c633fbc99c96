-- ===== src/Goods/Drawer.antt =====
-- provena-web/src/components/cart-drawer.tsx.
pub mod Countdown
use provena.Base.{
  ℕ, ◌+◌, ◌-◌, ◌*◌, ◌/◌, ◌%◌, String, Bool, true, false, not, Option, none, some, List, [], ◌∷◌,
  ◌++◌, ltb, leb, is_blank, is_empty, sum_by, if◌then◌else◌, ◌<>◌, ◌==◌, nat_eq, ℤ, sub_ℕ, pos,
}
use provena.Types.Order.{CartItem}
use provena.Orders.Card.{DateParser}
use provena.Markup.{Part, text, number, button, when}
use provena.Goods.{with_text, pounds}

-- The label of a countdown: `Expired`, `m:ss`, or `NaN:NaN` where the date does not parse. The last is
-- never urgent.
pub data Label : Type 0 where
  expired : Label
  clock : (mins secs : ℕ) → Label
  not_a_date : Label

unfoldable pub label_of : ℕ → ℕ → Label
label_of now time =
    if leb time now then expired else let ms = time - now in clock (ms / 60000) (ms % 60000 / 1000)

unfoldable pub urgent_at : ℕ → ℕ → Bool
urgent_at now time = if leb time now then true else ltb (time - now) (5 * 60000)

-- What `update()` sets, from the date as it is parsed.
abbrev pub update_to : ℕ → Option ℕ → Label × Bool
update_to now none = (not_a_date, false)
update_to now (some time) = (label_of now time, urgent_at now time)

unfoldable pub update : DateParser → ℕ → String → Label × Bool
update parse now expires_at = update_to now (parse expires_at)

-- `secs.toString().padStart(2, '0')`, for a number of at most two digits.
unfoldable pub label_parts : Label → List Part
label_parts expired = text "Expired" ∷ []
label_parts (clock mins secs) =
    number mins ∷ text ":" ∷ when (ltb secs 10) (text "0" ∷ []) ++ number secs ∷ []
label_parts not_a_date = text "NaN:NaN" ∷ []

unfoldable pub total_count : List CartItem → ℕ
total_count items = sum_by (λ (i : CartItem). i.quantity) items

-- What a click in the drawer asks of the page that shows it.
pub data Asked : Type 0 where
  closes : Asked
  updates : (item_id : String) (quantity : ℤ) → Asked
  removes : (item_id : String) → Asked
  leads_to : (path : String) → Asked

-- The clicks: on the backdrop, the cross or the way back, on an item's buttons, on the way on, and the
-- Escape key.
pub data Click : Type 0 where
  close decrease increase remove checkout escape : Click

unfoldable pub on_click : Bool → CartItem → Click → List Asked
on_click open_ item close = closes ∷ []
on_click open_ item decrease = updates item.id (sub_ℕ item.quantity 1) ∷ []
on_click open_ item increase = updates item.id (pos (item.quantity + 1)) ∷ []
on_click open_ item remove = removes item.id ∷ []
on_click open_ item checkout = closes ∷ leads_to "/checkout" ∷ []
on_click open_ item escape = if open_ then closes ∷ [] else []

unfoldable pub item_parts : DateParser → ℕ → CartItem → List Part
unfolding label_parts
item_parts parse now item =
    text item.product_name
      ∷ text item.variant_name
      ∷ text item.variant_sku
      ∷ with_text item.reservation_expires_at (λ at. label_parts (update parse now at).0)
    ++ button ("Remove " <> item.product_name <> " from cart") false
      ∷ button "Decrease quantity" false
      ∷ number item.quantity
      ∷ button "Increase quantity" false
      ∷ pounds item.subtotal
      ∷ pounds item.price
      ∷ []

unfoldable pub items_parts : DateParser → ℕ → List CartItem → List Part
items_parts parse now [] = []
items_parts parse now (item ∷ items) = item_parts parse now item ++ items_parts parse now items

unfoldable pub head_parts : ℕ → List Part
head_parts count =
    text "Cart"
      ∷ when (ltb 0 count) (number count ∷ text (if count == 1 then "item" else "items") ∷ [])
    ++ button "Close cart" false ∷ []

unfoldable pub drawer_view : DateParser → ℕ → List CartItem → String → List Part
unfolding head_parts items_parts
drawer_view parse now items total =
    head_parts (total_count items)
    ++ (if is_empty items
        then text "Your cart is empty."
          ∷ text "Browse the catalogue to find something good."
          ∷ button "Back to catalogue" false
          ∷ []
        else items_parts parse now items)
    ++ when (not (is_empty items)) (
        text "Subtotal"
        ∷ pounds total
        ∷ text "Shipping and taxes calculated at checkout."
        ∷ button "Proceed to checkout" false
        ∷ [])
