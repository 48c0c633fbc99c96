-- ===== src/Stock/Rows.antt =====
-- What the dialogs of provena-web/src/app/supplier/inventory/page.tsx ask the API for, over histories of
-- events on the page.
use provena.Base.{none, List, [], ◌∷◌, ◌≡◌}
use provena.Stock.{StockPage, Event, on_event, ReceiveForm, AdjustForm}

abbrev pub run : List Event → StockPage → StockPage
run [] p = p
run (ev ∷ evs) p = run evs (on_event ev p)

-- What an event types into the fields of a dialog.
abbrev pub receipt_typed : Event → ReceiveForm → ReceiveForm
receipt_typed (Event.fill_receive change) f = change f
receipt_typed (Event.check_low b) f = f
receipt_typed (Event.press_row stock) f = f
receipt_typed (Event.open_receive stock) f = f
receipt_typed (Event.open_adjust stock) f = f
receipt_typed (Event.fill_adjust change) f = f
receipt_typed Event.close_receive f = f
receipt_typed Event.close_adjust f = f
receipt_typed Event.received f = f
receipt_typed Event.adjusted f = f

abbrev pub adjustment_typed : Event → AdjustForm → AdjustForm
adjustment_typed (Event.fill_adjust change) f = change f
adjustment_typed (Event.check_low b) f = f
adjustment_typed (Event.press_row stock) f = f
adjustment_typed (Event.open_receive stock) f = f
adjustment_typed (Event.open_adjust stock) f = f
adjustment_typed (Event.fill_receive change) f = f
adjustment_typed Event.close_receive f = f
adjustment_typed Event.close_adjust f = f
adjustment_typed Event.received f = f
adjustment_typed Event.adjusted f = f

abbrev pub typed {ℓ} : {A : Type ℓ} → (Event → A → A) → List Event → A → A
typed change [] f = f
typed change (ev ∷ evs) f = typed change evs (change ev f)

-- The events that open a dialog, and those that end it.
pub data Dialog : Type 0 where
  receiving adjusting : Dialog

abbrev pub Opens : Dialog → Event → Type 0
Opens receiving (Event.open_receive stock) = Unit
Opens receiving (Event.open_adjust stock) = ⊥
Opens adjusting (Event.open_adjust stock) = Unit
Opens adjusting (Event.open_receive stock) = ⊥
Opens d (Event.check_low b) = ⊥
Opens d (Event.press_row stock) = ⊥
Opens d (Event.fill_receive change) = ⊥
Opens d (Event.fill_adjust change) = ⊥
Opens d Event.close_receive = ⊥
Opens d Event.close_adjust = ⊥
Opens d Event.received = ⊥
Opens d Event.adjusted = ⊥

abbrev pub Ends : Dialog → Event → Type 0
Ends receiving Event.close_receive = Unit
Ends receiving Event.received = Unit
Ends receiving Event.close_adjust = ⊥
Ends receiving Event.adjusted = ⊥
Ends adjusting Event.close_adjust = Unit
Ends adjusting Event.adjusted = Unit
Ends adjusting Event.close_receive = ⊥
Ends adjusting Event.received = ⊥
Ends d (Event.check_low b) = ⊥
Ends d (Event.press_row stock) = ⊥
Ends d (Event.open_receive stock) = ⊥
Ends d (Event.open_adjust stock) = ⊥
Ends d (Event.fill_receive change) = ⊥
Ends d (Event.fill_adjust change) = ⊥

-- An event that leaves an open dialog open, and one that leaves a closed one closed.
abbrev pub Keeps : Dialog → Event → Type 0
Keeps d ev = (¬ Opens d ev) × (¬ Ends d ev)

abbrev pub Idle : Dialog → Event → Type 0
Idle d ev = ¬ Opens d ev

-- Whether a dialog is closed.
abbrev Closed : Dialog → StockPage → Type 0
Closed receiving p = p.receive_modal ≡ none
Closed adjusting p = p.adjust_modal ≡ none
