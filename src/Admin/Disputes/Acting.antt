-- ===== src/Admin/Disputes/Acting.antt =====
-- What a row of provena-web/src/app/admin/disputes/page.tsx asks for, over histories of events.
use provena.Base.{
  String, Bool, false, Option, none, some, List, [], ◌∷◌, ◌≡◌, refl, arith, is_blank, eq_iff,
}
use provena.Types.Order.{OrderDispute, opened}
use provena.Requests.Ordering.{OverseerCall, admin_resolve_dispute, admin_reject_dispute}
use provena.Orders.Labels.{dispute_status_text}
use provena.Admin.Disputes.{
  Action, resolve, reject, DisputeRow, initial, Event, press, type_resolution, press_cancel, failed,
  on_event, call_of, dispute_call, act_call, act_disabled,
}

unfoldable pub run : List Event → DisputeRow → DisputeRow
run [] r = r
run (ev ∷ evs) r = run evs (on_event ev r)

-- The call for an action.
abbrev pub meant : Action → OrderDispute → String → OverseerCall
meant resolve d resolution = admin_resolve_dispute d.id resolution
meant reject d resolution = admin_reject_dispute d.id resolution

-- Where a row asks for something, the dispute is open, an action is chosen, no call is under way, and
-- the call is the one for that action, with a text that is more than white space.
pub act_call-Meant :
    (trim : String → String) (is_pending : Bool) (d : OrderDispute) (r : DisputeRow)
    (call : OverseerCall)
    → act_call trim is_pending d r ≡ some call
    → (dispute_status_text d.status ≡ dispute_status_text opened)
      × ((a : Action) × (r.action ≡ some a) × (call ≡ meant a d r.resolution))
      × (is_pending ≡ false)
      × (is_blank (trim r.resolution) ≡ false)
unfolding act_call act_disabled dispute_call call_of
act_call-Meant trim is_pending d r call e = by_action r.action r.resolution e
  where
    by_action :
        (a : Option Action) (resolution : String)
        → act_call trim is_pending d (record r { action = a; resolution = resolution }) ≡ some call
        → (dispute_status_text d.status ≡ dispute_status_text opened)
          × ((b : Action) × (a ≡ some b) × (call ≡ meant b d resolution))
          × (is_pending ≡ false)
          × (is_blank (trim resolution) ≡ false)
    by_action none resolution h = absurd (ground (arith, h))
    by_action (some resolve) resolution h = (
      ground (arith, h, eq_iff (dispute_status_text d.status) (dispute_status_text opened)),
      (resolve, refl, ground (arith, h)),
      ground (arith, h),
      ground (arith, h),
    )
    by_action (some reject) resolution h = (
      ground (arith, h, eq_iff (dispute_status_text d.status) (dispute_status_text opened)),
      (reject, refl, ground (arith, h)),
      ground (arith, h),
      ground (arith, h),
    )

-- A refusal that comes after the row was cancelled is shown when an action is chosen again.
pub late_failure :
    (a b : Action) (value detail : String)
    → (run
        (press a ∷ type_resolution value ∷ press_cancel ∷ failed (some detail) ∷ press b ∷ [])
        initial).error
      ≡ some detail
unfolding run on_event
late_failure a b value detail = refl
