-- ===== src/Orders/Forms/Lifecycle.antt =====
-- The dispute form of provena-web/src/app/orders/[reference]/page.tsx from its opening to its end.
use provena.Base.{String, true, Option, some, ◌≡◌, refl, ◌⊎◌, inl, inr}
use provena.Orders.Forms.{
  DisputeForm, DisputeEvent, open_form, type_reason, cancel, succeeded, failed, closed, on_dispute,
  or_default,
}

-- What the page lets happen: the text is typed and the submission ends while the form is open.
abbrev pub InOrder : DisputeEvent → DisputeForm → Type 0
InOrder (type_reason value) f = f.show_form ≡ true
InOrder (failed detail) f = f.show_form ≡ true
InOrder _ f = Unit

-- A form that is not shown holds nothing of an earlier use.
abbrev pub Clean : DisputeForm → Type 0
Clean f = (f.show_form ≡ true) ⊎ (f ≡ closed)

pub data Reach : DisputeForm → Type 0 where
  start : Reach closed
  event : {f : DisputeForm} (ev : DisputeEvent) → Reach f → InOrder ev f → Reach (on_dispute ev f)

on_dispute-Clean :
    (ev : DisputeEvent) (f : DisputeForm) → InOrder ev f → Clean f → Clean (on_dispute ev f)
unfolding on_dispute
on_dispute-Clean open_form f o c = inl refl
on_dispute-Clean (type_reason value) f o c = inl o
on_dispute-Clean cancel f o c = inr refl
on_dispute-Clean succeeded f o c = inr refl
on_dispute-Clean (failed detail) f o c = inl o

-- As long as a submission ends before the form is closed, a closed form is blank: opening it again
-- shows no text and no error of an earlier use.
pub Reach-Clean : {f : DisputeForm} → Reach f → Clean f
Reach-Clean start = inr refl
Reach-Clean (event ev r o) = on_dispute-Clean ev _ o (Reach-Clean r)

-- If the form is cancelled while a submission is under way that then fails, the error appears when
-- the form is opened again, over an empty text.
pub cancelled_submission :
    (f : DisputeForm) (detail : Option String)
    → on_dispute open_form (on_dispute (failed detail) (on_dispute cancel f)) ≡ record {
      show_form = true;
      reason = "";
      dispute_error = some (or_default detail "Could not raise dispute.");
    }
unfolding on_dispute
cancelled_submission f detail = refl
