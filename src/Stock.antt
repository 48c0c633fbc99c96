-- ===== src/Stock.antt =====
-- provena-web/src/app/supplier/inventory/page.tsx: a supplier's stock, with its two dialogs. Stock/View
-- is what the page shows.
pub mod View
pub mod Rows
use provena.Base.{
  ℕ, ◌+◌, String, Bool, true, false, ◌||◌, not, Option, none, some, List, [], ◌∷◌, ◌++◌, ◌==◌,
  string_eq, nat_eq, is_blank, if◌then◌else◌, ℤ, pos, negsuc, sub_ℕ, keep, length,
}
use provena.Types.Stock.{StockLevel}
use provena.Requests.{Fields, Value, if_given}
use provena.Requests
use provena.Requests.Management.{
  StockCall, get_inventory, set_threshold, receive_stock, adjust_stock,
}

-- The dialogs' fields. A field for a number holds a text.
pub record ReceiveForm : Type 0 where
  pub qty : String
  pub lot : String
  pub expiry : String
  pub notes : String

pub record AdjustForm : Type 0 where
  pub delta : String
  pub notes : String

abbrev pub no_receipt : ReceiveForm
no_receipt = record { qty = ""; lot = ""; expiry = ""; notes = "" }

abbrev pub no_adjustment : AdjustForm
no_adjustment = record { delta = ""; notes = "" }

-- The page; a dialog that is open has the stock level that it was opened for, and its fields.
pub record StockPage : Type 0 where
  pub low_only : Bool
  pub expanded : Option String
  pub receive_modal : Option (StockLevel × ReceiveForm)
  pub adjust_modal : Option (StockLevel × AdjustForm)

abbrev pub initial : StockPage
initial = record { low_only = false; expanded = none; receive_modal = none; adjust_modal = none }

-- `a + b`
unfoldable pub plus : ℕ → ℤ → ℤ
plus a (pos b) = pos (a + b)
plus a (negsuc b) = sub_ℕ a (b + 1)

abbrev pub is_zero_or : ℕ → ℤ → Bool
is_zero_or n (pos m) = m == n
is_zero_or n (negsuc m) = false

-- `expiry || null`
abbrev pub or_null : String → Value
or_null s = if is_blank s then Value.null else Value.text s

-- `Number(text)`, for what a field for whole numbers can hold, is the language's.
module _ (to_number : String → ℤ) where
  unfoldable pub receive_call : StockLevel → ReceiveForm → StockCall
  receive_call stock f = receive_stock stock.id (
      ("quantity", Requests.number (to_number f.qty)) ∷ if_given "lot_number" (some f.lot)
      ++ ("expires_at", or_null f.expiry) ∷ if_given "notes" (some f.notes))

  unfoldable pub adjust_call : StockLevel → AdjustForm → StockCall
  adjust_call stock f =
      adjust_stock stock.id
        (("delta", Requests.number (to_number f.delta)) ∷ ("notes", Requests.text f.notes) ∷ [])

  unfoldable pub preview : StockLevel → AdjustForm → ℤ
  unfolding plus
  preview stock f =
      if is_blank f.delta
      then pos stock.quantity_available
      else plus stock.quantity_available (to_number f.delta)

  -- The field of a row's threshold, when it is left.
  unfoldable pub leave_threshold : StockLevel → String → Option StockCall
  leave_threshold stock value =
      let val = to_number value in
      if is_zero_or stock.low_stock_threshold val then none else some (set_threshold stock.id val)

unfoldable pub receive_disabled : Bool → ReceiveForm → Bool
receive_disabled is_pending f = is_blank f.qty || is_pending

unfoldable pub adjust_disabled : Bool → AdjustForm → Bool
adjust_disabled is_pending f = is_blank f.delta || is_blank f.notes || is_pending

-- What the dialogs' last buttons send: nothing where they are disabled.
module _ (to_number : String → ℤ) (is_pending : Bool) where
  unfoldable pub confirm_receive : Option (StockLevel × ReceiveForm) → Option StockCall
  confirm_receive none = none
  confirm_receive (some (stock, f)) =
      if receive_disabled is_pending f then none else some (receive_call to_number stock f)

  unfoldable pub confirm_adjust : Option (StockLevel × AdjustForm) → Option StockCall
  confirm_adjust none = none
  confirm_adjust (some (stock, f)) =
      if adjust_disabled is_pending f then none else some (adjust_call to_number stock f)

unfoldable pub low_stock_count : List StockLevel → ℕ
low_stock_count inventory = length (keep (λ (s : StockLevel). s.is_low_stock) inventory)

-- `setExpanded(expanded === stock.id ? null : stock.id)`
abbrev pub is_expanded : Option String → String → Bool
is_expanded none id = false
is_expanded (some e) id = e == id

-- The events of the page and of its dialogs. `received` and `adjusted` are the success of their calls.
pub data Event : Type 0 where
  check_low : Bool → Event
  press_row open_receive open_adjust : (stock : StockLevel) → Event
  fill_receive : (ReceiveForm → ReceiveForm) → Event
  fill_adjust : (AdjustForm → AdjustForm) → Event
  close_receive close_adjust received adjusted : Event

abbrev pub fill {ℓ} : {A : Type ℓ} → (A → A) → Option (StockLevel × A) → Option (StockLevel × A)
fill change none = none
fill change (some (stock, f)) = some (stock, change f)

unfoldable pub on_event : Event → StockPage → StockPage
on_event (check_low b) p = record p { low_only = b }
on_event (press_row stock) p = record p {
  expanded = if is_expanded p.expanded stock.id then none else some stock.id;
}
on_event (open_receive stock) p = record p { receive_modal = some (stock, no_receipt) }
on_event (open_adjust stock) p = record p { adjust_modal = some (stock, no_adjustment) }
on_event (fill_receive change) p = record p { receive_modal = fill change p.receive_modal }
on_event (fill_adjust change) p = record p { adjust_modal = fill change p.adjust_modal }
on_event close_receive p = record p { receive_modal = none }
on_event close_adjust p = record p { adjust_modal = none }
on_event received p = record p { receive_modal = none }
on_event adjusted p = record p { adjust_modal = none }

-- `getInventory(showLowStockOnly || undefined)`
unfoldable pub inventory_call : StockPage → StockCall
inventory_call p = get_inventory p.low_only
