-- ===== src/Admin/Disputes.antt =====
-- provena-web/src/app/admin/disputes/page.tsx: the disputes, which an administrator resolves or
-- rejects. Disputes/Acting runs histories of events on a row.
pub mod Acting
use provena.Base.{
  ℕ, String, Bool, true, false, ◌&&◌, ◌||◌, not, Option, none, some, List, [], ◌∷◌, ◌++◌, ◌<>◌,
  ◌==◌, string_eq, nat_eq, is_blank, is_empty, keep, length, ltb, if◌then◌else◌,
}
use provena.Types.Order.{OrderDispute, DisputeStatus, opened, resolved}
use provena.Requests.Ordering.{OverseerCall, admin_resolve_dispute, admin_reject_dispute}
use provena.Orders.Labels.{dispute_status_text, status_badge}
use provena.Markup.{Part, text, number, button, field, when}

pub data Tab : Type 0 where
  all : Tab
  only : DisputeStatus → Tab

abbrev pub is_status : DisputeStatus → OrderDispute → Bool
is_status status d = dispute_status_text d.status == dispute_status_text status

unfoldable pub in_tab : Tab → OrderDispute → Bool
in_tab all d = true
in_tab (only status) d = is_status status d

unfoldable pub displayed : Tab → List OrderDispute → List OrderDispute
unfolding in_tab
displayed filter disputes = keep (in_tab filter) disputes

unfoldable pub open_count : List OrderDispute → ℕ
open_count disputes = length (keep (is_status opened) disputes)

-- A row.
pub data Action : Type 0 where
  resolve reject : Action

pub record DisputeRow : Type 0 where
  pub action : Option Action
  pub resolution : String
  pub error : Option String

abbrev pub initial : DisputeRow
initial = record { action = none; resolution = ""; error = none }

-- `succeeded` and `failed` are the answers to a call; the detail of a refusal may be missing.
pub data Event : Type 0 where
  press : Action → Event
  type_resolution : (value : String) → Event
  press_cancel succeeded : Event
  failed : (detail : Option String) → Event

abbrev or_text : Option String → String
or_text none = "Action failed."
or_text (some detail) = detail

unfoldable pub on_event : Event → DisputeRow → DisputeRow
on_event (press a) r = record r { action = some a }
on_event (type_resolution value) r = record r { resolution = value }
on_event press_cancel r = record r { action = none; resolution = ""; error = none }
on_event succeeded r = record r { action = none; resolution = ""; error = none }
on_event (failed detail) r = record r { error = some (or_text detail) }

call_of : Option Action → OrderDispute → String → OverseerCall
call_of (some resolve) d resolution = admin_resolve_dispute d.id resolution
call_of (some reject) d resolution = admin_reject_dispute d.id resolution
call_of none d resolution = admin_reject_dispute d.id resolution

unfoldable pub dispute_call : OrderDispute → DisputeRow → OverseerCall
unfolding call_of
dispute_call d r = call_of r.action d r.resolution

unfoldable pub act_disabled : (String → String) → Bool → DisputeRow → Bool
act_disabled trim is_pending r = is_blank (trim r.resolution) || is_pending

abbrev is_acting : Option Action → Bool
is_acting none = false
is_acting (some a) = true

-- What a click on the button for the action asks for: the button is there for a dispute that is open,
-- while an action is chosen.
unfoldable pub act_call : (String → String) → Bool → OrderDispute → DisputeRow → Option OverseerCall
unfolding dispute_call act_disabled
act_call trim is_pending d r =
    if is_status opened d && (is_acting r.action && not (act_disabled trim is_pending r))
    then some (dispute_call d r)
    else none

error_parts : Option String → List Part
error_parts none = []
error_parts (some e) = text e ∷ []

action_parts : (String → String) → Bool → DisputeRow → Option Action → List Part
unfolding act_disabled error_parts
action_parts trim is_pending r none = button "Resolve" false ∷ button "Reject" false ∷ []
action_parts trim is_pending r (some resolve) =
    field "Describe the resolution…" r.resolution ∷ error_parts r.error
    ++ button "Resolve" (act_disabled trim is_pending r) ∷ button "Cancel" false ∷ []
action_parts trim is_pending r (some reject) =
    field "Reason for rejection…" r.resolution ∷ error_parts r.error
    ++ button "Reject" (act_disabled trim is_pending r) ∷ button "Cancel" false ∷ []

abbrev or_dash : Option String → String
or_dash none = "—"
or_dash (some s) = s

-- `print_date` is `formatDate`, and `first_eight` is `slice(0, 8)`.
module _ (print_date first_eight trim : String → String) (is_pending : Bool) where
  unfoldable pub dispute_row : OrderDispute → DisputeRow → List Part
  unfolding action_parts
  dispute_row d r =
      text (print_date d.created_at)
        ∷ text (first_eight d.sub_order_id <> "…")
        ∷ text (or_dash d.raised_by_email)
        ∷ text d.reason
        ∷ when (not (is_blank d.resolution)) (text d.resolution ∷ [])
      ++ text (status_badge (dispute_status_text d.status)).1
        ∷ when (is_status opened d) (action_parts trim is_pending r r.action)

  unfoldable pub dispute_rows : (OrderDispute → DisputeRow) → List OrderDispute → List Part
  unfolding dispute_row
  dispute_rows rows [] = []
  dispute_rows rows (d ∷ disputes) = dispute_row d (rows d) ++ dispute_rows rows disputes

  tab_parts : List OrderDispute → List (Tab × String) → List Part
  unfolding in_tab
  tab_parts disputes [] = []
  tab_parts disputes ((key, label) ∷ rest) =
      let count = length (keep (in_tab key) disputes) in
      button label false ∷ when (ltb 0 count) (number count ∷ []) ++ tab_parts disputes rest

  unfoldable pub disputes_view :
      (OrderDispute → DisputeRow) → Bool → Tab → List OrderDispute → List Part
  unfolding dispute_rows tab_parts
  disputes_view rows loading filter disputes =
      let open_ = open_count disputes in
      text "Disputes"
        ∷ (if ltb 0 open_
            then number open_
              ∷ text (
                  if open_ == 1
                  then "open dispute awaiting mediation"
                  else "open disputes awaiting mediation")
              ∷ []
            else text "No open disputes" ∷ [])
      ++ tab_parts disputes (
          (all, "All")
          ∷ (only opened, "Open")
          ∷ (only resolved, "Resolved")
          ∷ (only DisputeStatus.rejected, "Rejected")
          ∷ [])
      ++ (if loading
          then text "Loading disputes…" ∷ []
          else if is_empty (displayed filter disputes)
          then text "No disputes in this category." ∷ []
          else dispute_rows rows (displayed filter disputes))
