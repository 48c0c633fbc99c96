-- ===== src/Fulfil/Returns.antt =====
-- provena-web/src/app/supplier/returns/page.tsx: the returns that buyers have asked a supplier for.
use provena.Base.{
  ℕ, String, Bool, true, false, ◌&&◌, ◌||◌, not, Option, none, some, List, [], ◌∷◌, ◌++◌, ◌<>◌,
  ◌==◌, nat_eq, is_blank, is_empty, ltb, if◌then◌else◌, ◌≡◌, arith,
}
use provena.Types.Order.{OrderReturn, ReturnStatus, requested, approved, refunding, refunded}
use provena.Requests.Ordering.{
  SellerCall, get_supplier_returns, supplier_approve_return, supplier_reject_return,
}
use provena.Orders.Labels.{status_badge}
use provena.Paging.{pagination, Bar}
use provena.Goods.{or_blank}
use provena.Markup.{Part, text, number, button, field, when}

unfoldable pub return_status_text : ReturnStatus → String
return_status_text requested = "REQUESTED"
return_status_text approved = "APPROVED"
return_status_text refunding = "REFUNDING"
return_status_text ReturnStatus.rejected = "REJECTED"
return_status_text refunded = "REFUNDED"

pub data FilterTab : Type 0 where
  all : FilterTab
  only : ReturnStatus → FilterTab

pub record ReturnsPage : Type 0 where
  pub filter : FilterTab
  pub page : ℕ

abbrev pub initial : ReturnsPage
initial = record { filter = all; page = 1 }

unfoldable pub choose_tab : FilterTab → ReturnsPage → ReturnsPage
choose_tab key p = record p { filter = key; page = 1 }

abbrev status_param : FilterTab → Option String
status_param all = none
status_param (only status) = some (return_status_text status)

unfoldable pub returns_call : ReturnsPage → SellerCall
unfolding return_status_text
returns_call p = get_supplier_returns (status_param p.filter) p.page

-- A row.
pub data Mode : Type 0 where
  idle approve reject : Mode

pub record ReturnRow : Type 0 where
  pub mode : Mode
  pub notes : String
  pub error : Option String

abbrev pub opened : ReturnRow
opened = record { mode = idle; notes = ""; error = none }

-- `succeeded` is the success of either call; the refusals may be without a detail.
pub data Event : Type 0 where
  press_approve press_reject press_cancel succeeded : Event
  type_notes : (value : String) → Event
  approve_failed reject_failed : (detail : Option String) → Event

abbrev or_text : String → Option String → String
or_text other none = other
or_text other (some detail) = detail

unfoldable pub on_event : Event → ReturnRow → ReturnRow
on_event press_approve r = record r { mode = approve; error = none }
on_event press_reject r = record r { mode = reject; error = none }
on_event press_cancel r = record r { mode = idle; notes = ""; error = none }
on_event succeeded r = record r { mode = idle; notes = "" }
on_event (type_notes value) r = record r { notes = value }
on_event (approve_failed detail) r = record r {
  error = some (or_text "Could not approve return." detail);
}
on_event (reject_failed detail) r = record r {
  error = some (or_text "Could not reject return." detail);
}

-- Whether the last button is disabled: a rejection wants a reason.
abbrev wants_notes : Mode → Bool
wants_notes idle = false
wants_notes approve = false
wants_notes reject = true

unfoldable pub confirm_disabled : (String → String) → Bool → ReturnRow → Bool
confirm_disabled trim is_pending r = is_pending || (wants_notes r.mode && is_blank (trim r.notes))

confirm_of : Mode → OrderReturn → String → Option SellerCall
confirm_of idle ret notes = none
confirm_of approve ret notes = some (supplier_approve_return ret.id (some notes))
confirm_of reject ret notes = some (supplier_reject_return ret.id (some notes))

unfoldable pub confirm_call : (String → String) → Bool → OrderReturn → ReturnRow → Option SellerCall
unfolding confirm_of confirm_disabled
confirm_call trim is_pending ret r =
    if confirm_disabled trim is_pending r then none else confirm_of r.mode ret r.notes

error_parts : Option String → List Part
error_parts none = []
error_parts (some e) = text e ∷ []

abbrev is_requested : OrderReturn → Bool
is_requested ret = elim ret.status [ requested ↦ true | _ ↦ false ]

mode_parts : (String → String) → Bool → OrderReturn → ReturnRow → Mode → List Part
unfolding confirm_disabled error_parts
mode_parts trim is_pending ret r idle =
    when (is_requested ret) (button "Approve" false ∷ button "Reject" false ∷ [])
mode_parts trim is_pending ret r approve =
    text "Approval notes (optional)"
      ∷ field "e.g. Please post item back within 7 days…" r.notes
      ∷ error_parts r.error
    ++ button "Confirm approval" (confirm_disabled trim is_pending r) ∷ button "Cancel" false ∷ []
mode_parts trim is_pending ret r reject =
    text "Rejection reason"
      ∷ field "e.g. Outside return policy window…" r.notes
      ∷ error_parts r.error
    ++ button "Confirm rejection" (confirm_disabled trim is_pending r) ∷ button "Cancel" false ∷ []

bar_parts : Option Bar → List Part
bar_parts none = []
bar_parts (some bar) =
    number bar.from
    ∷ number bar.to
    ∷ number bar.of
    ∷ button "Previous page" bar.previous_disabled
    ∷ button "Next page" bar.next_disabled
    ∷ []

-- `print_date` is `formatDate`; `pending` says of a row whether its calls are under way.
module _ (print_date trim : String → String) (pending : OrderReturn → Bool)
    (rows : OrderReturn → ReturnRow) where
  unfoldable pub return_row : OrderReturn → List Part
  unfolding mode_parts return_status_text
  return_row ret =
      text ("Order " <> ret.order_reference)
        ∷ text (or_blank ret.raised_by_email <> " · " <> print_date ret.created_at)
        ∷ text (status_badge (return_status_text ret.status)).1
        ∷ text ret.reason
        ∷ when (not (is_blank ret.supplier_notes)) (text ret.supplier_notes ∷ [])
      ++ mode_parts trim (pending ret) ret (rows ret) (rows ret).mode

  unfoldable pub return_rows : List OrderReturn → List Part
  unfolding return_row
  return_rows [] = []
  return_rows (ret ∷ returns) = return_row ret ++ return_rows returns

  unfoldable pub returns_view : Bool → List OrderReturn → ℕ → ReturnsPage → List Part
  unfolding return_rows bar_parts
  returns_view loading returns total_count p =
      text "Returns"
        ∷ number total_count
        ∷ text (if total_count == 1 then "return" else "returns")
        ∷ button "All" false
        ∷ button "Requested" false
        ∷ button "Approved" false
        ∷ button "Rejected" false
        ∷ button "Refunded" false
        ∷ (if loading
            then text "Loading…" ∷ []
            else if is_empty returns
            then text "No returns found." ∷ []
            else return_rows returns)
      ++ when (ltb 10 total_count) (bar_parts (pagination p.page total_count 20))

-- A return is rejected with a reason that is more than white space only, and no call is made while one
-- is under way or no decision is chosen.
pub confirm_call-Reasoned :
    (trim : String → String) (is_pending : Bool) (ret : OrderReturn) (r : ReturnRow) (id : String)
    (notes : Option String)
    → confirm_call trim is_pending ret r ≡ some (supplier_reject_return id notes)
    → (id ≡ ret.id)
      × (notes ≡ some r.notes)
      × (is_blank (trim r.notes) ≡ false)
      × (is_pending ≡ false)
unfolding confirm_call confirm_of confirm_disabled
confirm_call-Reasoned trim is_pending ret r id notes e =
    (ground (arith, e), ground (arith, e), ground (arith, e), ground (arith, e))
