-- ===== src/Listing/Importing.antt =====
-- What the dialog of provena-web/src/app/supplier/products/page.tsx imports, over histories of events.
use provena.Base.{
  String, true, Option, none, some, List, [], ◌∷◌, ◌≡◌, ◌⊎◌, inl, inr, refl, sym, ap, ◌∙◌, subst,
  not, if◌then◌else◌, ◌==◌, string_eq, eq_iff, if_cases, is_empty, Any,
}
use provena.Requests.Shop.{confirm_upload}
use provena.Listing.{
  UploadModal, opened, UploadStep, pick, errors, success, PreviewResult, Event, choose, no_file,
  previewed, preview_refused, press_product, back, press_import, imported, import_refused, on_event,
  upload_call, without, confirm, confirm_call, handle_file_change, preview_succeeded,
  confirm_succeeded, toggle_expand,
}

unfoldable pub run : List Event → UploadModal → UploadModal
run [] u = u
run (ev ∷ evs) u = run evs (on_event ev u)

-- The answers to previews are those of `answer`. A user waits where the file is chosen, and the way
-- back is taken, only while no call is without an answer.
module _ (answer : String → PreviewResult) where
  abbrev pub Waits : Event → UploadModal → Type 0
  Waits (choose f) u = (u.previewing ≡ []) × (u.step ≡ pick)
  Waits (previewed f result) u = Any (λ g. g ≡ f) u.previewing × (result ≡ answer f)
  Waits back u = (u.previewing ≡ []) × (u.confirming ≡ [])
  Waits press_import u = u.step ≡ UploadStep.preview
  Waits no_file u = Unit
  Waits (preview_refused f) u = Unit
  Waits (press_product name) u = Unit
  Waits (imported f created) u = Any (λ g. g ≡ f) u.confirming
  Waits (import_refused f) u = Unit

  abbrev pub Course : List Event → UploadModal → Type 0
  Course [] u = Unit
  Course (ev ∷ evs) u = Waits ev u × Course evs (on_event ev u)

  -- Before an import starts there is at most one preview on its way, that of the file; what is shown to
  -- be imported is the answer for the file.
  abbrev Known :
      UploadStep → Option String → Option PreviewResult → List String → List String → Type 0
  Known pick file preview previewing confirming =
      (confirming ≡ [])
      × ((previewing ≡ []) ⊎ ((g : String) × (previewing ≡ g ∷ []) × (file ≡ some g)))
  Known UploadStep.preview file preview previewing confirming =
      (previewing ≡ [])
      × ((f : String) × (file ≡ some f) × (preview ≡ some (answer f)) × ((answer f).valid ≡ true))
  Known errors file preview previewing confirming = (previewing ≡ []) × (confirming ≡ [])
  Known success file preview previewing confirming = previewing ≡ []

  abbrev Sound : UploadModal → Type 0
  Sound u = Known u.step u.file u.preview u.previewing u.confirming

  without-nil : (f : String) (files : List String) → files ≡ [] → without f files ≡ []
  without-nil f files e = rw e refl

  not_among : (f : String) (files : List String) → files ≡ [] → ¬ Any (λ g. g ≡ f) files
  not_among f [] e m = m
  not_among f (g ∷ files) e m = cc

  chosen :
      (step : UploadStep) (f : String) (file : Option String) (preview : Option PreviewResult)
      (previewing confirming : List String)
      → previewing ≡ []
      → step ≡ pick
      → Known step file preview previewing confirming
      → Known step (some f) preview (f ∷ previewing) confirming
  chosen pick f file preview previewing confirming none_on e (c, h) =
      (c, inr (f, ap (◌∷◌ f) none_on, refl))
  chosen UploadStep.preview f file preview previewing confirming none_on e h = cc
  chosen errors f file preview previewing confirming none_on e h = cc
  chosen success f file preview previewing confirming none_on e h = cc

  answered :
      (step : UploadStep) (f : String) (file : Option String) (preview : Option PreviewResult)
      (previewing confirming : List String)
      → Any (λ g. g ≡ f) previewing
      → Known step file preview previewing confirming
      → (without f previewing ≡ []) × (file ≡ some f) × (confirming ≡ [])
  answered pick f file preview previewing confirming m (c, inl e) =
      absurd (not_among f previewing e m)
  answered pick f file preview previewing confirming m (c, inr (g, e, own)) =
      elim (subst (Any (λ h. h ≡ f)) e m) [
        | inl same ↦ (rw (e, (eq_iff g f).1 same) refl, own ∙ ap some same, c)
        | inr h ↦ absurd h
      ]
  answered UploadStep.preview f file preview previewing confirming m (e, h) =
      absurd (not_among f previewing e m)
  answered errors f file preview previewing confirming m (e, h) =
      absurd (not_among f previewing e m)
  answered success f file preview previewing confirming m e = absurd (not_among f previewing e m)

  refused :
      (step : UploadStep) (f : String) (file : Option String) (preview : Option PreviewResult)
      (previewing confirming : List String)
      → Known step file preview previewing confirming
      → Known step file preview (without f previewing) confirming
  refused pick f file preview previewing confirming (c, inl e) =
      (c, inl (without-nil f previewing e))
  refused pick f file preview previewing confirming (c, inr (g, e, own)) = rw e (
      if_cases
        (λ l. (confirming ≡ []) × ((l ≡ []) ⊎ ((h : String) × (l ≡ h ∷ []) × (file ≡ some h))))
        (not (g == f)) (λ other. (c, inr (g, refl, own))) (λ same. (c, inl refl)))
  refused UploadStep.preview f file preview previewing confirming (e, h) =
      (without-nil f previewing e, h)
  refused errors f file preview previewing confirming (e, c) = (without-nil f previewing e, c)
  refused success f file preview previewing confirming e = without-nil f previewing e

  confirming_free :
      (step : UploadStep) (file : Option String) (preview : Option PreviewResult)
      (previewing before after : List String)
      → step ≡ UploadStep.preview
      → Known step file preview previewing before
      → Known step file preview previewing after
  confirming_free UploadStep.preview file preview previewing before after e h = h
  confirming_free pick file preview previewing before after e h = cc
  confirming_free errors file preview previewing before after e h = cc
  confirming_free success file preview previewing before after e h = cc

  confirm-Sound :
      (file : Option String) (u : UploadModal)
      → u.step ≡ UploadStep.preview
      → Sound u
      → Sound (confirm file u)
  confirm-Sound none u e h = h
  confirm-Sound (some f) u e h =
      if_cases Sound (is_empty u.confirming)
        (λ _.
          confirming_free u.step u.file u.preview u.previewing u.confirming (f ∷ u.confirming) e h)
        (λ _. h)

  import_ended :
      (step : UploadStep) (f : String) (file : Option String) (preview : Option PreviewResult)
      (previewing confirming : List String)
      → Any (λ g. g ≡ f) confirming
      → Known step file preview previewing confirming
      → previewing ≡ []
  import_ended pick f file preview previewing confirming m (c, h) =
      absurd (not_among f confirming c m)
  import_ended UploadStep.preview f file preview previewing confirming m (e, h) = e
  import_ended errors f file preview previewing confirming m (e, c) = e
  import_ended success f file preview previewing confirming m e = e

  import_failed :
      (step : UploadStep) (f : String) (file : Option String) (preview : Option PreviewResult)
      (previewing confirming : List String)
      → Known step file preview previewing confirming
      → Known step file preview previewing (without f confirming)
  import_failed pick f file preview previewing confirming (c, h) = (without-nil f confirming c, h)
  import_failed UploadStep.preview f file preview previewing confirming h = h
  import_failed errors f file preview previewing confirming (e, c) = (e, without-nil f confirming c)
  import_failed success f file preview previewing confirming h = h

  on_event-Sound : (ev : Event) (u : UploadModal) → Waits ev u → Sound u → Sound (on_event ev u)
  unfolding on_event handle_file_change preview_succeeded confirm_succeeded toggle_expand
  on_event-Sound (choose f) u (none_on, e) h =
      chosen u.step f u.file u.preview u.previewing u.confirming none_on e h
  on_event-Sound no_file u w h = h
  on_event-Sound (previewed f result) u (m, e) h =
      let (gone, own, c) = answered u.step f u.file u.preview u.previewing u.confirming m h in
      if_cases (λ step. Known step u.file (some result) (without f u.previewing) u.confirming)
        result.valid
        (λ valid. (gone, (f, own, ap some e, ap (λ (r : PreviewResult). r.valid) (sym e) ∙ valid)))
        (λ invalid. (gone, c))
  on_event-Sound (preview_refused f) u w h =
      refused u.step f u.file u.preview u.previewing u.confirming h
  on_event-Sound (press_product name) u w h = h
  on_event-Sound back u (none_on, c) h = (c, inl none_on)
  on_event-Sound press_import u e h = confirm-Sound u.file u e h
  on_event-Sound (imported f created) u m h =
      import_ended u.step f u.file u.preview u.previewing u.confirming m h
  on_event-Sound (import_refused f) u w h =
      import_failed u.step f u.file u.preview u.previewing u.confirming h

  run-Sound : (evs : List Event) (u : UploadModal) → Course evs u → Sound u → Sound (run evs u)
  unfolding run
  run-Sound [] u c h = h
  run-Sound (ev ∷ evs) u (w, c) h = run-Sound evs (on_event ev u) c (on_event-Sound ev u w h)

-- What the dialog offers to import: a file whose answer is shown and is without errors, and the
-- button imports that file, unless an import is on its way.
abbrev pub Reviewed : (String → PreviewResult) → UploadModal → Type 0
Reviewed answer u =
    (f : String) × (u.preview ≡ some (answer f))
    × ((answer f).valid ≡ true)
    × (upload_call press_import u
        ≡ (if is_empty u.confirming then some (confirm_upload f) else none))

reviewed :
    (answer : String → PreviewResult) (u : UploadModal)
    → u.step ≡ UploadStep.preview
    → Known answer u.step u.file u.preview u.previewing u.confirming
    → Reviewed answer u
unfolding upload_call
reviewed answer u e h =
    let (gone, (f, own, shown, valid)) =
      subst (λ step. Known answer step u.file u.preview u.previewing u.confirming) e h in
    (f, shown, valid, ap (λ o. confirm_call o u.confirming) own)

-- Where a user chooses a file and goes back only while no call is without its answer, the dialog in
-- its step of review shows the answer to the preview of a file, which is without errors, and its
-- button imports just that file, unless an import is on its way.
pub run-Reviewed :
    (answer : String → PreviewResult) (evs : List Event)
    → Course answer evs opened
    → (run evs opened).step ≡ UploadStep.preview
    → Reviewed answer (run evs opened)
run-Reviewed answer evs c e =
    reviewed answer (run evs opened) e (run-Sound answer evs opened c (refl, inl refl))

-- Whoever chooses a second file before the answer for the first has come is shown the first file's
-- products and imports the second file, whose answer has not been seen.
pub late_preview :
    (f g : String) (result : PreviewResult) (u : UploadModal)
    → result.valid ≡ true
    → u.confirming ≡ []
    → let v = run (choose f ∷ choose g ∷ previewed f result ∷ []) u in
      (v.step ≡ UploadStep.preview)
      × (v.preview ≡ some result)
      × (upload_call press_import v ≡ some (confirm_upload g))
unfolding run on_event handle_file_change preview_succeeded upload_call
late_preview f g result u valid idle = (rw valid refl, refl, rw idle refl)
