-- ===== src/Stock/View.antt =====
-- What the page of provena-web/src/app/supplier/inventory/page.tsx shows.
use provena.Base.{
  ℕ, ◌+◌, String, Bool, false, ◌&&◌, not, Option, none, some, List, [], ◌∷◌, ◌++◌, ltb, leb,
  is_blank, is_empty, if◌then◌else◌, ℤ, pos, negsuc,
}
use provena.Types.Stock.{StockLevel, StockLot, StockMovement}
use provena.Orders.Card.{DateParser}
use provena.Markup.{Part, text, number, button, field, when}
use provena.Stock.{
  StockPage, ReceiveForm, AdjustForm, preview, receive_disabled, adjust_disabled, low_stock_count,
  is_expanded,
}

abbrev int_parts : ℤ → List Part
int_parts (pos n) = number n ∷ []
int_parts (negsuc n) = text "-" ∷ number (n + 1) ∷ []

error_parts : Option String → List Part
error_parts none = []
error_parts (some message) = text message ∷ []

unfoldable pub receive_view : Bool → Option String → StockLevel → ReceiveForm → List Part
unfolding error_parts
receive_view is_pending error stock f =
    text "Receive stock -"
      ∷ text stock.variant_sku
      ∷ field "Quantity *" f.qty
      ∷ field "Lot number" f.lot
      ∷ field "Expiry date" f.expiry
      ∷ field "Notes" f.notes
      ∷ error_parts error
    ++ button "Cancel" false
      ∷ button (if is_pending then "Saving..." else "Confirm receipt")
          (receive_disabled is_pending f)
      ∷ []

unfoldable pub adjust_view :
    (String → ℤ) → Bool → Option String → StockLevel → AdjustForm → List Part
unfolding error_parts
adjust_view to_number is_pending error stock f =
    text "Adjust stock -"
      ∷ text stock.variant_sku
      ∷ text "Current available:"
      ∷ number stock.quantity_available
      ∷ field "Delta (+ to add, - to remove) *" f.delta
      ∷ when (not (is_blank f.delta))
          (text "After adjustment:" ∷ int_parts (preview to_number stock f))
    ++ field "Reason *" f.notes ∷ error_parts error
    ++ button "Cancel" false
      ∷ button (if is_pending then "Saving..." else "Apply adjustment")
          (adjust_disabled is_pending f)
      ∷ []

-- `text || '-'`
abbrev or_dash : String → String
or_dash s = if is_blank s then "-" else s

-- Whether a date is at most the threshold; a date that does not parse is not.
abbrev at_most : ℕ → Option ℕ → Bool
at_most threshold none = false
at_most threshold (some time) = leb time threshold

-- What is printed of a lot's date of expiry, with its mark where the lot is about to expire.
module _ (parse : DateParser) (print_date print_day : String → String) (expiry_threshold : ℕ) where
  unfoldable pub expiry_parts : Option String → List Part
  expiry_parts none = text "-" ∷ []
  expiry_parts (some date) =
      if is_blank date
      then text "-" ∷ []
      else text (print_date date) ∷ when (at_most expiry_threshold (parse date)) (text "⚠" ∷ [])

  unfoldable pub lot_rows : List StockLot → List Part
  unfolding expiry_parts
  lot_rows [] = []
  lot_rows (lot ∷ lots) =
      text (or_dash lot.lot_number)
        ∷ number lot.quantity_received
        ∷ number lot.quantity_remaining
        ∷ expiry_parts lot.expires_at
      ++ text (or_dash lot.notes) ∷ []
      ++ lot_rows lots

  unfoldable pub lots_view : Bool → List StockLot → List Part
  unfolding lot_rows
  lots_view loading lots =
      when loading (text "Loading..." ∷ [])
      ++ when (not loading && is_empty lots) (text "No lots recorded yet." ∷ [])
      ++ when (not (is_empty lots)) (
          text "Lot"
          ∷ text "Received"
          ∷ text "Remaining"
          ∷ text "Expiry"
          ∷ text "Notes"
          ∷ lot_rows lots)

  -- A plus stands before a quantity above zero.
  unfoldable pub signed : ℤ → List Part
  signed (pos n) = when (ltb 0 n) (text "+" ∷ []) ++ number n ∷ []
  signed (negsuc n) = text "-" ∷ number (n + 1) ∷ []

  unfoldable pub movement_rows : List StockMovement → List Part
  unfolding signed
  movement_rows [] = []
  movement_rows (m ∷ movements) =
      text m.movement_type_display ∷ signed m.quantity
      ++ number m.quantity_after ∷ text (or_dash m.reference) ∷ text (print_day m.created_at) ∷ []
      ++ movement_rows movements

  unfoldable pub movements_view : Bool → List StockMovement → List Part
  unfolding movement_rows
  movements_view loading movements =
      when loading (text "Loading..." ∷ [])
      ++ when (not loading && is_empty movements) (text "No movements recorded yet." ∷ [])
      ++ when (not (is_empty movements)) (
          text "Type"
          ∷ text "Qty"
          ∷ text "After"
          ∷ text "Reference"
          ∷ text "Date"
          ∷ movement_rows movements)

  -- The row that is expanded: its tab, and what its queries have answered.
  pub data Tab : Type 0 where
    lots movements : Tab

  pub record Expanded : Type 0 where
    pub tab : Tab
    pub loading : Bool
    pub stock_lots : List StockLot
    pub stock_movements : List StockMovement

  tab_view : Tab → Expanded → List Part
  unfolding lots_view movements_view
  tab_view lots e = lots_view e.loading e.stock_lots
  tab_view movements e = movements_view e.loading e.stock_movements

  unfoldable pub expanded_view : Expanded → List Part
  unfolding tab_view
  expanded_view e = button "Stock lots" false ∷ button "Movement history" false ∷ tab_view e.tab e

  -- A row; its threshold stands in a field whose text is not kept by the page.
  unfoldable pub stock_row : (ℕ → String) → Expanded → StockPage → StockLevel → List Part
  unfolding expanded_view
  stock_row digits e p stock =
      button (if is_expanded p.expanded stock.id then "Collapse" else "Expand") false
        ∷ text stock.product_name
        ∷ text stock.variant_sku
        ∷ number stock.quantity_available
        ∷ when stock.is_low_stock (text "⚠" ∷ [])
      ++ number stock.quantity_reserved
        ∷ number stock.quantity_on_hand
        ∷ field "Threshold" (digits stock.low_stock_threshold)
        ∷ button "Receive" false
        ∷ button "Adjust" false
        ∷ when (is_expanded p.expanded stock.id) (expanded_view e)

  unfoldable pub stock_rows : (ℕ → String) → Expanded → StockPage → List StockLevel → List Part
  unfolding stock_row
  stock_rows digits e p [] = []
  stock_rows digits e p (stock ∷ inventory) =
      stock_row digits e p stock ++ stock_rows digits e p inventory

  unfoldable pub stock_view :
      (ℕ → String) → Expanded → Bool → List StockLevel → StockPage → List Part
  unfolding stock_rows
  stock_view digits e is_loading inventory p =
      let low = low_stock_count inventory in
      text "Inventory"
        ∷ when (ltb 0 low) (
            number low
            ∷ text (if ltb 1 low then "variants" else "variant")
            ∷ text "below threshold"
            ∷ [])
      ++ button "Low stock only" false
        ∷ when (not is_loading && is_empty inventory) (
            text (if p.low_only then "No low-stock items" else "No inventory records yet")
            ∷ text "Stock levels are created automatically when you add product variants."
            ∷ [])
      ++ when (not is_loading && not (is_empty inventory)) (
          text "Product / SKU"
          ∷ text "Available"
          ∷ text "Reserved"
          ∷ text "On hand"
          ∷ text "Threshold"
          ∷ text "Actions"
          ∷ stock_rows digits e p inventory)
