-- ===== src/Orders/Forms.antt =====
-- provena-web/src/app/orders/[reference]/page.tsx, the two forms of the card: raising a dispute, and
-- asking for a return. An event handler is a function on the form's state.
pub mod Quantities
pub mod Lifecycle
use Prim.Native.Char.{code}
use Prim.Native.String
use provena.Base.{
  ℕ, ◌+◌, ◌-◌, String, Bool, true, false, ◌&&◌, ◌||◌, not, Option, none, some, List, [], ◌∷◌, map,
  ◌==◌, string_eq, ltb, leb, any, keep, is_empty, if◌then◌else◌,
}
use provena.Session.Sync.{is_space}
use provena.Types.Order.{OrderItem, SubOrder}
use provena.Orders.Card.{left_of}

-- `!text.trim()`
unfoldable pub blank_trimmed : String → Bool
blank_trimmed String.[] = true
blank_trimmed (String.◌∷◌ c s) = is_space (code c) && blank_trimmed s

-- `err.response?.data?.detail`
abbrev pub or_default : Option String → String → String
or_default none text = text
or_default (some detail) text = detail

pub record DisputeForm : Type 0 where
  pub show_form : Bool
  pub reason : String
  pub dispute_error : Option String

abbrev pub closed : DisputeForm
closed = record { show_form = false; reason = ""; dispute_error = none }

pub data DisputeEvent : Type 0 where
  open_form : DisputeEvent
  type_reason : (value : String) → DisputeEvent
  cancel : DisputeEvent
  succeeded : DisputeEvent
  failed : (detail : Option String) → DisputeEvent

-- `succeeded` and `failed` are the callbacks of the mutation.
unfoldable pub on_dispute : DisputeEvent → DisputeForm → DisputeForm
on_dispute open_form f = record f { show_form = true }
on_dispute (type_reason value) f = record f { reason = value }
on_dispute cancel f = record { show_form = false; reason = ""; dispute_error = none }
on_dispute succeeded f = record { show_form = false; reason = ""; dispute_error = none }
on_dispute (failed detail) f = record f {
  dispute_error = some (or_default detail "Could not raise dispute.");
}

unfoldable pub can_submit_dispute : Bool → DisputeForm → Bool
can_submit_dispute is_pending f = not (blank_trimmed f.reason || is_pending)

-- `returnQty` is a record of JavaScript: its entries in the order in which their keys were added.
pub record ReturnForm : Type 0 where
  pub show_return_form : Bool
  pub return_reason : String
  pub return_qty : List (String × ℕ)
  pub return_error : Option String

abbrev pub no_return : ReturnForm
no_return = record {
  show_return_form = false;
  return_reason = "";
  return_qty = [];
  return_error = none;
}

-- `returnQty[id] ?? 0`
unfoldable pub qty_of : String → List (String × ℕ) → ℕ
qty_of id [] = 0
qty_of id ((key, q) ∷ entries) = if key == id then q else qty_of id entries

-- `{ ...s, [id]: q }`
unfoldable pub put_qty : String → ℕ → List (String × ℕ) → List (String × ℕ)
put_qty id q [] = (id, q) ∷ []
put_qty id q ((key, q') ∷ entries) =
    if key == id then (key, q) ∷ entries else (key, q') ∷ put_qty id q entries

-- `Math.min(a, b)`
abbrev pub smaller : ℕ → ℕ → ℕ
smaller a b = if leb a b then a else b

pub data ReturnEvent : Type 0 where
  open_return : ReturnEvent
  type_return_reason : (value : String) → ReturnEvent
  less more : (item : OrderItem) → ReturnEvent
  cancel_return : ReturnEvent
  return_succeeded : ReturnEvent
  return_failed : (detail : Option String) → ReturnEvent

-- A row of the form, which is there only for an item that may go back and has units left: its
-- greatest quantity.
unfoldable pub row_max : SubOrder → OrderItem → Option ℕ
row_max sub item = if item.is_returnable then left_of sub item else none

-- The two buttons of a row; the minus is disabled at 0 and the plus at the greatest quantity.
unfoldable pub click_less : Option ℕ → String → ReturnForm → ReturnForm
unfolding put_qty qty_of
click_less none id f = f
click_less (some max) id f =
    let qty = qty_of id f.return_qty in
    if leb qty 0 then f else record f { return_qty = put_qty id (qty - 1) f.return_qty }

unfoldable pub click_more : Option ℕ → String → ReturnForm → ReturnForm
unfolding put_qty qty_of
click_more none id f = f
click_more (some max) id f =
    let qty = qty_of id f.return_qty in
    if leb max qty
    then f
    else record f { return_qty = put_qty id (smaller max (qty + 1)) f.return_qty }

unfoldable pub on_return : SubOrder → ReturnEvent → ReturnForm → ReturnForm
on_return sub open_return f = record f { show_return_form = true }
on_return sub (type_return_reason value) f = record f { return_reason = value }
on_return sub (less item) f = click_less (row_max sub item) item.id f
on_return sub (more item) f = click_more (row_max sub item) item.id f
on_return sub cancel_return f = no_return
on_return sub return_succeeded f = no_return
on_return sub (return_failed detail) f = record f {
  return_error = some (or_default detail "Could not submit return request.");
}

unfoldable pub selected_return_items : ReturnForm → List (String × ℕ)
selected_return_items f = keep (λ e. ltb 0 e.1) f.return_qty

unfoldable pub can_return_selected : Bool → ReturnForm → Bool
can_return_selected is_pending f =
    not (blank_trimmed f.return_reason || is_empty (selected_return_items f) || is_pending)

unfoldable pub can_return_everything : Bool → ReturnForm → Bool
can_return_everything is_pending f = not (blank_trimmed f.return_reason || is_pending)
